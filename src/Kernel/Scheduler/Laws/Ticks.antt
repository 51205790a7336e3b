-- ===== src/Kernel/Scheduler/Laws/Ticks.antt =====
-- kernel/scheduler.c: the quantum of ten ticks.
use minerva_os.Base.{
  ℕ, zero, suc, ◌+◌, ◌/◌, ◌%◌, ◌^◌, ◌≡◌, ◌≢◌, ◌<◌, ◌≤◌, refl, sym, ◌∙◌, true, false, ltb, ltb→lt,
  not_ltb→le, ◌==◌, leb, arith, Bool-cases, inl, inr,
}
use minerva_os.Kernel.Scheduler.{Sched}
use minerva_os.Kernel.Scheduler.Inv.{Inv}
use minerva_os.Kernel.Scheduler.Timer.{scheduler_tick}

quantum-Inv : (t : ℕ) (s : Sched) → t < 10 → Inv s → Inv (record s { ticks_in_quantum = t })
quantum-Inv t s l v = record {
  size = v.size;
  limit = v.limit;
  quantum = l;
  current_bound = v.current_bound;
  main_bound = v.main_bound;
  active = v.active;
  main_entry = v.main_entry;
  idle = v.idle;
  saved = v.saved;
  paused_runs = v.paused_runs;
  paused_main = v.paused_main;
  runs = v.runs;
  runs_other = v.runs_other;
}

pub tick-Inv : (s : Sched) → Inv s → Inv (scheduler_tick s)
unfolding scheduler_tick
tick-Inv s v = elim (Bool-cases (s.task_count == 0)) [
  | inl e ↦ rw e v
  | inr e ↦ elim (Bool-cases (leb 10 (s.ticks_in_quantum + 1))) [
    | inl f ↦ rw (e, f) (quantum-Inv 0 s (omega arith) v)
    | inr f ↦ rw (e, f) (quantum-Inv (s.ticks_in_quantum + 1) s (ground arith) v)
  ]
]

-- `n` timer ticks.
unfoldable pub ticks : ℕ → Sched → Sched
ticks zero s = s
ticks (suc n) s = ticks n (scheduler_tick s)

-- After so many ticks of the quantum: a whole one asks for a switch, and less changes no request.
pub record Requests (t : ℕ) (before after : Sched) : Type 0 where
  pub whole : 10 ≤ t → (after.switch_pending ≡ true) × (after.irq_candidate_ready ≡ true)
  pub part :
      t < 10
      → (after.switch_pending ≡ before.switch_pending)
        × (after.irq_candidate_ready ≡ before.irq_candidate_ready)

-- A request stands until it is served.
kept :
    (n : ℕ) (s : Sched)
    → (s.switch_pending ≡ true) × (s.irq_candidate_ready ≡ true)
    → ((ticks n s).switch_pending ≡ true) × ((ticks n s).irq_candidate_ready ≡ true)
unfolding ticks scheduler_tick
kept zero s h = h
kept (suc n) s h = kept n (scheduler_tick s) (elim (Bool-cases (s.task_count == 0)) [
  | inl e ↦ rw e h
  | inr e ↦ elim (Bool-cases (leb 10 (s.ticks_in_quantum + 1))) [
    | inl f ↦ rw (e, f) (refl, refl)
    | inr f ↦ rw (e, f) h
  ]
])

tick_lem :
    (s : Sched)
    → s.task_count ≢ 0
    → s.ticks_in_quantum < 10
    → s.timer_request_count < 2 ^ 32
    → ((scheduler_tick s).ticks_in_quantum ≡ (s.ticks_in_quantum + 1) % 10)
      × ((scheduler_tick s).timer_request_count
          ≡ (s.timer_request_count + (s.ticks_in_quantum + 1) / 10) % 2 ^ 32)
      × ((scheduler_tick s).task_count ≡ s.task_count)
      × Requests (s.ticks_in_quantum + 1) s (scheduler_tick s)
unfolding scheduler_tick
tick_lem s n q r =
    let e : (s.task_count == 0) ≡ false = ground arith in
    elim (Bool-cases (leb 10 (s.ticks_in_quantum + 1))) [
      | inl f ↦
          let t : s.ticks_in_quantum ≡ 9 = ground arith in
          rw (e, f)
            (
              omega arith,
              omega arith,
              refl,
              record { whole = λ h. (refl, refl); part = λ h. absurd (omega arith) },
            )
      | inr f ↦
          let t : s.ticks_in_quantum < 9 = ground arith in
          rw (e, f)
            (
              omega arith,
              omega arith,
              refl,
              record { whole = λ h. absurd (omega arith); part = λ h. (refl, refl) },
            )
    ]

-- With a task in the table, `n` ticks move the quantum on by `n` modulo ten and ask for a switch
-- once for each quantum that they complete: with a whole one the switch is pending and a candidate may
-- be taken, and with less both stay as they were.
pub ticks_lem :
    (n : ℕ) (s : Sched)
    → s.task_count ≢ 0
    → s.ticks_in_quantum < 10
    → s.timer_request_count < 2 ^ 32
    → ((ticks n s).ticks_in_quantum ≡ (s.ticks_in_quantum + n) % 10)
      × ((ticks n s).timer_request_count
          ≡ (s.timer_request_count + (s.ticks_in_quantum + n) / 10) % 2 ^ 32)
      × Requests (s.ticks_in_quantum + n) s (ticks n s)
unfolding ticks
ticks_lem zero s c q r = (
  omega arith,
  omega arith,
  record { whole = λ h. absurd (omega arith); part = λ h. (refl, refl) },
)
ticks_lem (suc n) s c q r =
    let (t, k, d, first) = tick_lem s c q r in
    let q' : (scheduler_tick s).ticks_in_quantum < 10 = omega arith in
    let r' : (scheduler_tick s).timer_request_count < 2 ^ 32 = omega arith in
    let c' : (scheduler_tick s).task_count ≢ 0 = λ z. c (sym d ∙ z) in
    let (t', k', rest) = ticks_lem n (scheduler_tick s) c' q' r' in
    (
      omega arith,
      omega arith,
      elim (Bool-cases (ltb (s.ticks_in_quantum + 1) 10)) [
        | inl e ↦
            let l = ltb→lt _ _ e in
            record {
              whole = λ h. rest.whole (omega (arith, t, h, l));
              part = λ h.
                  let (a, b) = rest.part (omega (arith, t, h, l)) in
                  let (a', b') = first.part l in (a ∙ a', b ∙ b');
            }
        | inr e ↦
            let l = not_ltb→le _ _ e in
            record {
              whole = λ h. kept n (scheduler_tick s) (first.whole (omega (arith, l)));
              part = λ h. absurd (omega (arith, l, h));
            }
      ],
    )
