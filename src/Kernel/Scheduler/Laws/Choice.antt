-- ===== src/Kernel/Scheduler/Laws/Choice.antt =====
-- kernel/scheduler.c: what the loops that choose the next task answer.
use minerva_os.Base.{
  ℕ, zero, suc, ◌≡◌, ◌≢◌, ◌<◌, refl, ◌+◌, ◌-◌, ap, sym, subst, ◌∙◌, ◌↔◌, if◌then◌else◌, ltb, leb,
  ==_iff, get_or, true≢false, Bool, true, false, not, ◌&&◌, ◌==◌, Option, none, some, arith,
  Bool-cases, inl, inr, none-ne-some, some-injective, ◌⊎◌,
}
use minerva_os.Kernel.Scheduler.{Sched, empty_task}
use minerva_os.Kernel.Scheduler.Tasks.{task_at}
use minerva_os.Kernel.Scheduler.Timer.{
  step_index, same_index, can_resume, next_loop, scheduler_next_active_irq_task,
}
use minerva_os.Kernel.Scheduler.Switch.{poll_loop}

pub step_index-lt : (count : ℕ) (o : Option ℕ) → 0 < count → step_index count o < count
unfolding step_index
step_index-lt count none h = h
step_index-lt count (some i) h = ground arith

-- The index after `k` steps of the loop, from `o`.
unfoldable pub nth_index : ℕ → ℕ → Option ℕ → ℕ
nth_index count zero o = step_index count o
nth_index count (suc k) o = nth_index count k (some (step_index count o))

-- Whether the loop takes the index `i`.
abbrev pub takes : Sched → ℕ → Bool
takes s i = not (same_index s.current_task i) && can_resume s i

-- The first of `n` indices that the loop takes is at `k` steps.
pub record FirstTaken (s : Sched) (n : ℕ) (o : Option ℕ) (i : ℕ) : Type 0 where
  pub steps : ℕ
  pub inside : steps < n
  pub there : nth_index s.task_count steps o ≡ i
  pub taken : takes s i ≡ true
  pub before : (k : ℕ) → k < steps → takes s (nth_index s.task_count k o) ≡ false

abbrev NoneTaken : Sched → ℕ → Option ℕ → Type 0
NoneTaken s n o = (k : ℕ) → k < n → takes s (nth_index s.task_count k o) ≡ false

next_loop-cases :
    (s : Sched) (n : ℕ) (o : Option ℕ)
    → ((next_loop s n o ≡ none) × NoneTaken s n o)
      ⊎ ((i : ℕ) × (next_loop s n o ≡ some i) × FirstTaken s n o i)
unfolding next_loop nth_index
next_loop-cases s zero o = inl (refl, λ k l. absurd (omega arith))
next_loop-cases s (suc n) o =
    let i = step_index s.task_count o in
    elim (Bool-cases (takes s i)) [
      | inl e ↦ rw e (
          inr (
            i,
            refl,
            record {
              steps = 0;
              inside = omega arith;
              there = refl;
              taken = e;
              before = λ k l. absurd (omega arith);
            },
          ))
      | inr e ↦ elim (next_loop-cases s n (some i)) [
        | inl (q, h) ↦ rw (e, q) (inl (refl, extend s n o e h))
        | inr (j, q, f) ↦
            rw (e, q)
              (inr (
                j,
                refl,
                record {
                  steps = suc f.steps;
                  inside = omega (arith, f.inside);
                  there = f.there;
                  taken = f.taken;
                  before = extend s f.steps o e f.before;
                },
              ))
      ]
    ]
  where
    extend :
        (s : Sched) (n : ℕ) (o : Option ℕ)
        → takes s (step_index s.task_count o) ≡ false
        → NoneTaken s n (some (step_index s.task_count o))
        → NoneTaken s (suc n) o
    extend s n o e h zero l = e
    extend s n o e h (suc k) l = h k (omega arith)

choice-cases :
    (s : Sched)
    → ((scheduler_next_active_irq_task s ≡ none) × NoneTaken s s.task_count s.current_task)
      ⊎ ((i : ℕ) × (scheduler_next_active_irq_task s ≡ some i)
          × FirstTaken s s.task_count s.current_task i)
unfolding scheduler_next_active_irq_task
choice-cases s = elim (Bool-cases (s.task_count == 0)) [
  | inl e ↦ rw e (inl (refl, λ k l. absurd (ground arith)))
  | inr e ↦ elim (next_loop-cases s s.task_count s.current_task) [
    | inl (q, h) ↦ rw (e, q) (inl (refl, h))
    | inr (i, q, f) ↦ rw (e, q) (inr (i, refl, f))
  ]
]

-- The index `k` places behind the current one, round a table of `count`; without a current task the
-- places count from the first index.
abbrev pub position : ℕ → Option ℕ → ℕ → ℕ
position count none k = k
position count (some i) k = if ltb (i + 1 + k) count then i + 1 + k else i + 1 + k - count

-- The task `i` is another than the current one, active, and has a saved frame.
abbrev pub Resumable : Sched → ℕ → Type 0
Resumable s i =
    (s.current_task ≢ some i)
    × ((get_or s.tasks i empty_task).active ≡ true)
    × ((get_or s.tasks i empty_task).context.irq_esp ≢ 0)

-- The first index round the table of such a task.
pub record FirstResumable (s : Sched) (i : ℕ) : Type 0 where
  pub steps : ℕ
  pub inside : steps < s.task_count
  pub there : position s.task_count s.current_task steps ≡ i
  pub resumable : Resumable s i
  pub before : (k : ℕ) → k < steps → ¬ Resumable s (position s.task_count s.current_task k)

nth_index-some :
    (count k i : ℕ) → i < count → k < count → nth_index count k (some i) ≡ position count (some i) k
unfolding nth_index step_index
nth_index-some count zero i h l = ground arith
nth_index-some count (suc k) i h l = elim (Bool-cases (leb count (i + 1))) [
  | inl e ↦ rw e (nth_index-some count k 0 (omega (arith, h)) (omega (arith, l)) ∙ ground arith)
  | inr e ↦
      rw e (nth_index-some count k (i + 1) (ground (arith, e, h)) (omega (arith, l)) ∙ ground arith)
]

nth_index-none : (count k : ℕ) → k < count → nth_index count k none ≡ k
unfolding nth_index step_index
nth_index-none count zero l = refl
nth_index-none count (suc k) l =
    nth_index-some count k 0 (omega (arith, l)) (omega (arith, l)) ∙ ground arith

nth_index-position :
    (count k : ℕ) (o : Option ℕ)
    → ((c : ℕ) → o ≡ some c → c < count)
    → k < count
    → nth_index count k o ≡ position count o k
nth_index-position count k none h l = nth_index-none count k l
nth_index-position count k (some i) h l = nth_index-some count k i (h i refl) l

same_index_iff : (o : Option ℕ) (i : ℕ) → (same_index o i ≡ true) ↔ (o ≡ some i)
same_index_iff none i = (λ h. absurd (true≢false (sym h)), λ h. absurd (none-ne-some i h))
same_index_iff (some j) i =
    (λ h. ap (λ x. some x) ((==_iff j i).0 h), λ h. (==_iff j i).1 (some-injective j i h))

takes_iff : (s : Sched) (i : ℕ) → (takes s i ≡ true) ↔ Resumable s i
takes_iff s i =
    let t = task_at s i in
    let law = same_index_iff s.current_task i in
    elim (Bool-cases (same_index s.current_task i)) [
      | inl e ↦ (λ h. absurd (true≢false (sym h ∙ rw e refl)), λ r. absurd (r.0 (law.0 e)))
      | inr e ↦ (
        λ h.
            let r : (t.active && not (t.context.irq_esp == 0)) ≡ true = rw e at h in
            (λ c. absurd (true≢false (sym (law.1 c) ∙ e)), ground arith, λ z. ground arith),
        λ r. rw e (let a = r.1 in let b = r.2 in ground arith),
      )
    ]

-- With the current task in the table, `scheduler_next_active_irq_task` goes once round the table from
-- behind the current task and answers the first task other than the current one that is active and has
-- a saved frame; it answers -1 exactly when there is none on the way.
pub scheduler_next_active_irq_task-cases :
    (s : Sched)
    → ((c : ℕ) → s.current_task ≡ some c → c < s.task_count)
    → ((scheduler_next_active_irq_task s ≡ none)
        × ((k : ℕ) → k < s.task_count → ¬ Resumable s (position s.task_count s.current_task k)))
      ⊎ ((i : ℕ) × (scheduler_next_active_irq_task s ≡ some i) × FirstResumable s i)
scheduler_next_active_irq_task-cases s h =
    let at =
      λ (k : ℕ) (l : k < s.task_count). nth_index-position s.task_count k s.current_task h l in
    let refuses =
      λ (k : ℕ) (l : k < s.task_count)
          (t : takes s (nth_index s.task_count k s.current_task) ≡ false)
          (r : Resumable s (position s.task_count s.current_task k)).
        true≢false (sym ((takes_iff s _).1 (subst (Resumable s) (sym (at k l)) r)) ∙ t) in
    elim (choice-cases s) [
      | inl (e, none') ↦ inl (e, λ k l. refuses k l (none' k l))
      | inr (i, e, f) ↦ inr (
        i,
        e,
        record {
          steps = f.steps;
          inside = f.inside;
          there = sym (at f.steps f.inside) ∙ f.there;
          resumable = (takes_iff s i).0 f.taken;
          before = λ k l. refuses k (omega (arith, l, f.inside)) (f.before k l);
        },
      )
    ]

nth_index-lt : (count k : ℕ) (o : Option ℕ) → 0 < count → nth_index count k o < count
unfolding nth_index
nth_index-lt count zero o h = step_index-lt count o h
nth_index-lt count (suc k) o h = nth_index-lt count k (some (step_index count o)) h

-- The same, as the timer uses it.
pub next_task_lem :
    (s : Sched) (i : ℕ)
    → scheduler_next_active_irq_task s ≡ some i
    → (i < s.task_count) × (same_index s.current_task i ≡ false) × (can_resume s i ≡ true)
next_task_lem s i e = elim (choice-cases s) [
  | inl (q, h) ↦ absurd (none-ne-some i (sym q ∙ e))
  | inr (j, q, f) ↦
      let same : j ≡ i = some-injective j i (sym q ∙ e) in
      let b = nth_index-lt s.task_count f.steps s.current_task (omega (arith, f.inside)) in
      let bound : i < s.task_count = omega (arith, f.there) in
      let taken : takes s i ≡ true = rw (← same) f.taken in (bound, ground arith, ground arith)
]

-- What the loop of `scheduler_poll` answers is a task with an entry.
pub poll_loop_lem :
    (s : Sched) (n : ℕ) (o : Option ℕ) (i : ℕ)
    → 0 < s.task_count
    → poll_loop s n o ≡ some i
    → (i < s.task_count) × ((task_at s i).active ≡ true) × ((task_at s i).entry ≢ 0)
unfolding poll_loop
poll_loop_lem s zero o i h e = absurd (none-ne-some i e)
poll_loop_lem s (suc n) o i h e =
    let j = step_index s.task_count o in
    elim (Bool-cases ((task_at s j).active && not ((task_at s j).entry == 0))) [
      | inl t ↦
          let e' : some j ≡ some i = rw (poll_loop, t) at e in
          let same : j ≡ i = some-injective j i e' in
          rw (← same) (step_index-lt s.task_count o h, ground arith, λ z. ground arith)
      | inr t ↦ poll_loop_lem s n (some j) i h (rw (poll_loop, t) at e)
    ]
