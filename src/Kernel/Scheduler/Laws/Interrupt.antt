-- ===== src/Kernel/Scheduler/Laws/Interrupt.antt =====
-- kernel/scheduler.c: the timer interrupt keeps the invariant.
use minerva_os.Base.{
  ℕ, ◌≡◌, ◌≢◌, ◌<◌, refl, ap, sym, subst, ◌∙◌, true, false, not, ◌||◌, ◌==◌, ==_iff, Option, none,
  some, arith, Bool-cases, Option-cases, inl, inr, if_cases, false≢true, true≢false,
}
use minerva_os.Kernel.Scheduler.{Sched, inc}
use minerva_os.Kernel.Scheduler.Tasks.{task_at, is_set}
use minerva_os.Kernel.Scheduler.Timer.{
  set_irq_esp, same_index, can_resume, scheduler_next_active_irq_task,
  scheduler_note_interrupt_frame, capture_main, timer_in_main, switch_from_task, timer_in_task,
  timer_candidate, scheduler_on_timer_interrupt,
}
use minerva_os.Kernel.Scheduler.Inv.{Inv, InvOf}
use minerva_os.Kernel.Scheduler.Laws.Choice.{next_task_lem}
use minerva_os.Kernel.Scheduler.Laws.Moves.{
  switch_from_main-Inv, save-Inv, to_main-Inv, to_task-Inv,
}

-- What `capture_main` writes decides nothing.
module _ (frame : ℕ) (s : Sched) where
  capture_main-Inv : Inv s → Inv (capture_main frame s)
  unfolding capture_main
  capture_main-Inv v = elim (Bool-cases (is_set s.main_task_id)) [ inl e ↦ rw e v | inr e ↦ rw e v ]

  capture_main_kept {ℓ} :
      {A : Type ℓ} (f : Sched → A)
      → ((e c : ℕ) → f (record s { main_captured_esp = e; main_capture_count = c }) ≡ f s)
      → f (capture_main frame s) ≡ f s
  unfolding capture_main
  capture_main_kept f k = elim (Bool-cases (is_set s.main_task_id)) [
    | inl e ↦ rw e (k _ _)
    | inr e ↦ rw e refl
  ]

timer_in_main-Inv :
    (frame next : ℕ) (s : Sched)
    → frame ≢ 0
    → s.in_task ≡ false
    → next < s.task_count
    → can_resume s next ≡ true
    → Inv s
    → Inv (timer_in_main frame next s).1
unfolding timer_in_main
timer_in_main-Inv frame next s f t l c v =
    let w = capture_main-Inv frame s v in
    elim (Option-cases s.main_task_id) [
      | inl e ↦ rw (timer_in_main, e) w
      | inr (main, e) ↦ elim (Bool-cases (not s.main_switch_enabled)) [
        | inl g ↦ rw (timer_in_main, e, g) w
        | inr g ↦
            let count = capture_main_kept frame s (λ u. u.task_count) (λ a b. refl) in
            let resumes = capture_main_kept frame s (λ u. can_resume u next) (λ a b. refl) in
            rw (timer_in_main, e, g)
              (switch_from_main-Inv frame main next (capture_main frame s) f
                (capture_main_kept frame s (λ u. u.main_task_id) (λ a b. refl) ∙ e)
                (capture_main_kept frame s (λ u. u.in_task) (λ a b. refl) ∙ t) (omega arith)
                (resumes ∙ c) w)
      ]
    ]

same_index_sound : (o : Option ℕ) (i : ℕ) → same_index o i ≡ true → o ≡ some i
same_index_sound none i e = absurd (false≢true e)
same_index_sound (some j) i e = ap (λ k. some k) ((==_iff j i).0 e)

same_index_self : (o : Option ℕ) (i : ℕ) → o ≡ some i → same_index o i ≡ true
same_index_self o i e = rw e ((==_iff i i).1 refl)

switch_from_task-Inv :
    (frame cur next : ℕ) (s : Sched)
    → s.in_task ≡ true
    → s.current_task ≡ some cur
    → next < s.task_count
    → Inv s
    → Inv (switch_from_task frame cur next s).1
unfolding switch_from_task
switch_from_task-Inv frame cur next s t e l v =
    let saved : Inv (record s { tasks = set_irq_esp cur frame s.tasks }) =
      save-Inv cur frame s (λ m g. v.runs_other cur m t e g) v in
    elim (Bool-cases (same_index s.main_task_id next)) [
      | inl g ↦
          let main : s.main_task_id ≡ some next = same_index_sound s.main_task_id next g in
          rw g (to_main-Inv next (record s { tasks = set_irq_esp cur frame s.tasks }) main saved)
      | inr g ↦
          let other : (m : ℕ) → s.main_task_id ≡ some m → next ≢ m = λ m q z.
            true≢false
              (sym (same_index_self s.main_task_id next (q ∙ ap (λ k. some k) (sym z))) ∙ g) in
          let w =
            to_task-Inv next (record s { tasks = set_irq_esp cur frame s.tasks }) l other saved in
          rw g (
            subst
              (λ b.
                InvOf (set_irq_esp cur frame s.tasks) s.task_count s.ticks_in_quantum (some next)
                  s.main_task_id s.main_paused_via_irq b)
              (sym t) w)
    ]

timer_in_task-Inv :
    (frame next : ℕ) (s : Sched)
    → s.in_task ≡ true
    → next < s.task_count
    → Inv s
    → Inv (timer_in_task frame next s).1
unfolding timer_in_task
timer_in_task-Inv frame next s t l v = elim (Option-cases s.current_task) [
  | inl e ↦ rw (timer_in_task, e) v
  | inr (cur, e) ↦ elim (Bool-cases (task_at s cur).active) [
    | inl g ↦ rw (timer_in_task, e, g) (switch_from_task-Inv frame cur next s t e l v)
    | inr g ↦ rw (timer_in_task, e, g) v
  ]
]

note-Inv :
    (frame int_no eip : ℕ) (s : Sched)
    → Inv s
    → Inv (scheduler_note_interrupt_frame frame int_no eip s)
unfolding scheduler_note_interrupt_frame
note-Inv frame int_no eip s v = elim (Bool-cases (frame == 0 || not (int_no == 32))) [
  | inl e ↦ rw e v
  | inr e ↦ rw e v
]

timer_candidate-Inv :
    (frame next : ℕ) (s : Sched)
    → frame ≢ 0
    → next < s.task_count
    → can_resume s next ≡ true
    → Inv s
    → Inv (timer_candidate frame next s).1
unfolding timer_candidate
timer_candidate-Inv frame next s0 f l c v =
    let s = record s0 {
      irq_candidate_ready = false;
      irq_candidate_count = inc s0.irq_candidate_count;
    } in
    elim (Bool-cases (not s0.preemptive_enabled)) [
      | inl e ↦ rw e v
      | inr e ↦ rw e (
          if_cases (λ r. Inv r.1) (not s0.in_task) (timer_in_main frame next s)
            (timer_in_task frame next s)
            (λ t. timer_in_main-Inv frame next s f (ground arith) l c v)
            (λ t. timer_in_task-Inv frame next s (ground arith) l v))
    ]

-- The timer interrupt keeps the invariant.
pub timer-Inv :
    (frame int_no eip : ℕ) (s : Sched)
    → frame ≢ 0
    → Inv s
    → Inv (scheduler_on_timer_interrupt frame int_no eip s).1
unfolding scheduler_on_timer_interrupt
timer-Inv frame int_no eip s0 f v0 =
    let s = scheduler_note_interrupt_frame frame int_no eip s0 in
    let v : Inv s = note-Inv frame int_no eip s0 v0 in
    elim (Bool-cases (not s.switch_pending || not s.irq_candidate_ready || s.task_count == 0)) [
      | inl e ↦ rw e v
      | inr e ↦ elim (Option-cases (scheduler_next_active_irq_task s)) [
        | inl n ↦ rw (scheduler_on_timer_interrupt, e, n) v
        | inr (i, n) ↦
            let (l, o, c) = next_task_lem s i n in
            rw (scheduler_on_timer_interrupt, e, n) (timer_candidate-Inv frame i s f l c v)
      ]
    ]
