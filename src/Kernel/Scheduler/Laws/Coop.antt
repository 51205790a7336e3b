-- ===== src/Kernel/Scheduler/Laws/Coop.antt =====
-- kernel/scheduler.c: the cooperative switches keep the invariant.
use minerva_os.Base.{
  ℕ, ◌≡◌, ◌≢◌, refl, ap, sym, ◌∙◌, true, false, not, ◌&&◌, ◌||◌, ◌==◌, Option, none, some, arith,
  Bool-cases, Option-cases, inl, inr, if_cases, false≢true,
}
use minerva_os.Kernel.Scheduler.{Sched, inc}
use minerva_os.Kernel.Scheduler.Tasks.{task_at}
use minerva_os.Kernel.Scheduler.Timer.{set_irq_esp}
use minerva_os.Kernel.Scheduler.Switch.{
  poll_loop, scheduler_poll, poll_return, stay, switch_to_main, yield_iret, yield_from,
  switch_update_irq, after_yield, after_poll, trampoline_run, scheduler_yield,
}
use minerva_os.Kernel.Scheduler.Inv.{Inv}
use minerva_os.Kernel.Scheduler.Laws.Choice.{poll_loop_lem}
use minerva_os.Kernel.Scheduler.Laws.Moves.{save-Inv, to_main-Inv, to_task-Inv}
use minerva_os.Kernel.Scheduler.Laws.Writes.{changed-Inv, save_esp-Inv}

-- A cooperative switch from the main loop to a task keeps the invariant.
pub poll-Inv : (s : Sched) → s.in_task ≡ false → Inv s → Inv (scheduler_poll s).1
unfolding scheduler_poll
poll-Inv s0 t v =
    let s = record s0 { switch_pending = false } in
    elim (Bool-cases (not s0.switch_pending || s0.task_count == 0)) [
      | inl e ↦ rw e v
      | inr e ↦ elim (Option-cases (poll_loop s s.task_count s.current_task)) [
        | inl n ↦ rw (scheduler_poll, e, n) v
        | inr (i, n) ↦
            let (l, a, h) = poll_loop_lem s s.task_count s.current_task i (ground arith) n in
            let other : (m : ℕ) → s0.main_task_id ≡ some m → i ≢ m =
              λ m q z. h (ap (λ k. (task_at s0 k).entry) z ∙ v.main_entry m q) in
            rw (scheduler_poll, e, n) (to_task-Inv i s0 l other v)
      ]
    ]

pub after_poll-Inv : (esp : ℕ) (r : Option ℕ × Sched) → Inv r.1 → Inv (after_poll esp r)
unfolding after_poll
after_poll-Inv esp (none, s) v = v
after_poll-Inv esp (some target, s) v = elim (Option-cases s.main_task_id) [
  | inl e ↦ rw (after_poll, e) v
  | inr (m, e) ↦ rw (after_poll, e) (save_esp-Inv m esp s v)
]

switch_update_irq-Inv :
    (old resume esp : ℕ) (s : Sched) → Inv s → Inv (switch_update_irq old resume esp s)
unfolding switch_update_irq
switch_update_irq-Inv old resume esp s v = save_esp-Inv old esp s v

-- Control back in a main loop that no interrupt paused.
main_runs-Inv : (s : Sched) → s.main_paused_via_irq ≡ false → Inv s → Inv (poll_return s)
unfolding poll_return
main_runs-Inv s p v = record {
  size = v.size;
  limit = v.limit;
  quantum = v.quantum;
  current_bound = v.current_bound;
  main_bound = v.main_bound;
  active = v.active;
  main_entry = v.main_entry;
  idle = v.idle;
  saved = v.saved;
  paused_runs = λ q. absurd (false≢true (sym p ∙ q));
  paused_main = v.paused_main;
  runs = λ r. absurd (false≢true r);
  runs_other = λ c m r. absurd (false≢true r);
}

yield_iret-Inv :
    (old main esp : ℕ) (s : Sched)
    → s.in_task ≡ true
    → s.current_task ≡ some old
    → s.main_task_id ≡ some main
    → Inv s
    → Inv (after_yield esp (yield_iret old main s))
unfolding yield_iret after_yield
yield_iret-Inv old main esp s t c m v =
    let resume = (task_at s old).context.resume_irq_esp in
    let w = save-Inv old resume s (λ k g. v.runs_other old k t c g) v in
    let u = to_main-Inv main (record s { tasks = set_irq_esp old resume s.tasks }) m w in
    switch_update_irq-Inv old resume esp (yield_iret old main s).1 u

yield_from-Inv :
    (old esp : ℕ) (s : Sched)
    → s.in_task ≡ true
    → s.current_task ≡ some old
    → Inv s
    → Inv (after_yield esp (yield_from old s))
unfolding yield_from
yield_from-Inv old esp s t c v = elim (Option-cases s.main_task_id) [
  | inl e ↦ rw (yield_from, e) (unfold after_yield in v)
  | inr (main, e) ↦
      rw (yield_from, e)
        (if_cases (λ r. Inv (after_yield esp r))
          (s.main_paused_via_irq && not ((task_at s main).context.irq_esp == 0))
          (yield_iret old main s)
          (
            switch_to_main old (task_at s old).context.resume_irq_esp (task_at s main).context.esp,
            s,
          )
          (λ p. yield_iret-Inv old main esp s t c e v)
          (λ p.
            let free : s.main_paused_via_irq ≡ false = elim (Bool-cases s.main_paused_via_irq) [
              | inl q ↦ absurd (v.saved main e q (ground arith))
              | inr q ↦ q
            ] in
            let r = (task_at s old).context.resume_irq_esp in
            unfold after_yield switch_update_irq in
            (main_runs-Inv (switch_update_irq old r esp s) free
              (switch_update_irq-Inv old r esp s v))))
]

-- `scheduler_yield` and the switch that it makes keep the invariant.
pub yield-Inv : (esp : ℕ) (s : Sched) → Inv s → Inv (after_yield esp (scheduler_yield s))
unfolding scheduler_yield
yield-Inv esp s v = elim (Option-cases s.current_task) [
  | inl e ↦ rw (scheduler_yield, e) (unfold after_yield in v)
  | inr (old, e) ↦ elim (Bool-cases s.in_task) [
    | inl t ↦
        rw (scheduler_yield, e)
          (if_cases (λ r. Inv (after_yield esp r)) (not s.in_task) (stay, s) (yield_from old s)
            (λ n. absurd (ground arith)) (λ n. yield_from-Inv old esp s t e v))
    | inr t ↦
        rw (scheduler_yield, e)
          (if_cases (λ r. Inv (after_yield esp r)) (not s.in_task) (stay, s) (yield_from old s)
            (λ n. unfold after_yield in v) (λ n. absurd (ground arith)))
  ]
]

pub trampoline-Inv : (s : Sched) → Inv s → Inv (trampoline_run s)
unfolding trampoline_run
trampoline-Inv s v = elim (Option-cases s.current_task) [
  | inl e ↦ rw (trampoline_run, e) v
  | inr (cur, e) ↦
      rw (trampoline_run, e)
        (if_cases Inv ((task_at s cur).active && not ((task_at s cur).entry == 0)) _ s
          (λ c.
            changed-Inv cur (λ t. record t { runs = inc t.runs }) s (λ t. refl) (λ t. refl)
              (λ t. refl) v)
          (λ c. v))
]
