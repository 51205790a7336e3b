-- ===== src/Kernel/Scheduler/Laws/Moves.antt =====
-- kernel/scheduler.c: the changes of control between tasks and the main loop keep the invariant.
use minerva_os.Base.{
  ℕ, ◌≡◌, ◌≢◌, ◌<◌, refl, ap, sym, ◌∙◌, true, false, List, Option, some, arith, length, get_or,
  Bool-cases, inl, inr, some-injective, false≢true, true≢false,
}
use minerva_os.Kernel.Scheduler.{Sched, Task, empty_task}
use minerva_os.Kernel.Scheduler.Timer.{set_irq_esp, can_resume, switch_from_main}
use minerva_os.Kernel.Scheduler.Inv.{
  Inv, length-set_irq_esp, set_irq_esp_other, set_irq_esp_self, set_irq_esp_kept,
}

active_kept :
    (i v : ℕ) (ts : List Task) (count : ℕ)
    → ((j : ℕ) → j < count → (get_or ts j empty_task).active ≡ true)
    → (j : ℕ) → j < count
    → (get_or (set_irq_esp i v ts) j empty_task).active ≡ true
active_kept i v ts count h j l = set_irq_esp_kept i v ts (λ t. t.active) (λ t. refl) j ∙ h j l

entry_kept :
    (i v : ℕ) (ts : List Task) (main : Option ℕ)
    → ((m : ℕ) → main ≡ some m → (get_or ts m empty_task).entry ≡ 0)
    → (m : ℕ) → main ≡ some m
    → (get_or (set_irq_esp i v ts) m empty_task).entry ≡ 0
entry_kept i v ts main h m e = set_irq_esp_kept i v ts (λ t. t.entry) (λ t. refl) m ∙ h m e

pub switch_from_main-Inv :
    (frame main next : ℕ) (s : Sched)
    → frame ≢ 0
    → s.main_task_id ≡ some main
    → s.in_task ≡ false
    → next < s.task_count
    → can_resume s next ≡ true
    → Inv s
    → Inv (switch_from_main frame main next s).1
unfolding switch_from_main
switch_from_main-Inv frame main next s f e t l c v =
    let not_paused : s.main_paused_via_irq ≡ false = elim (Bool-cases s.main_paused_via_irq) [
      | inl p ↦ absurd (false≢true (sym t ∙ v.paused_runs p))
      | inr p ↦ p
    ] in
    let rests = v.idle main e not_paused in
    let other : next ≢ main =
      λ q. true≢false (sym c ∙ ap (can_resume s) q ∙ ground (arith, rests)) in
    let bound : main < length s.tasks = omega (arith, v.main_bound main e, v.limit, v.size) in
    let same : (m : ℕ) → s.main_task_id ≡ some m → main ≡ m =
      λ m g. some-injective main m (sym e ∙ g) in
    record {
      size = length-set_irq_esp main frame s.tasks ∙ v.size;
      limit = v.limit;
      quantum = v.quantum;
      current_bound = λ k g. let q : next ≡ k = some-injective next k g in omega arith;
      main_bound = v.main_bound;
      active = active_kept main frame s.tasks s.task_count v.active;
      main_entry = entry_kept main frame s.tasks s.main_task_id v.main_entry;
      idle = λ m g p. absurd (true≢false p);
      saved = λ m g p z. f (
          sym (set_irq_esp_self main frame s.tasks bound)
          ∙ ap (λ i. (get_or (set_irq_esp main frame s.tasks) i empty_task).context.irq_esp)
              (same m g)
          ∙ z);
      paused_runs = λ p. refl;
      paused_main = λ p. (main, e);
      runs = λ r. (next, refl);
      runs_other = λ k m r g h.
          let q : next ≡ k = some-injective next k g in λ z. other (q ∙ z ∙ sym (same m h));
    }

-- A write to the saved frame of a task that is not the main loop.
pub save-Inv :
    (i frame : ℕ) (s : Sched)
    → ((m : ℕ) → s.main_task_id ≡ some m → i ≢ m)
    → Inv s
    → Inv (record s { tasks = set_irq_esp i frame s.tasks })
save-Inv i frame s n v = record {
  size = length-set_irq_esp i frame s.tasks ∙ v.size;
  limit = v.limit;
  quantum = v.quantum;
  current_bound = v.current_bound;
  main_bound = v.main_bound;
  active = active_kept i frame s.tasks s.task_count v.active;
  main_entry = entry_kept i frame s.tasks s.main_task_id v.main_entry;
  idle = λ m g p.
      ap (λ t. t.context.irq_esp) (set_irq_esp_other i frame s.tasks m (n m g)) ∙ v.idle m g p;
  saved = λ m g p z.
      v.saved m g p
        (sym (ap (λ t. t.context.irq_esp) (set_irq_esp_other i frame s.tasks m (n m g))) ∙ z);
  paused_runs = v.paused_runs;
  paused_main = v.paused_main;
  runs = v.runs;
  runs_other = v.runs_other;
}

-- The main loop's frame is taken, and it runs.
pub to_main-Inv :
    (main : ℕ) (s : Sched)
    → s.main_task_id ≡ some main
    → Inv s
    → Inv (record s {
      tasks = set_irq_esp main 0 s.tasks;
      main_paused_via_irq = false;
      in_task = false;
      current_task = some main;
    })
to_main-Inv main s e v =
    let bound : main < length s.tasks = omega (arith, v.main_bound main e, v.limit, v.size) in
    record {
      size = length-set_irq_esp main 0 s.tasks ∙ v.size;
      limit = v.limit;
      quantum = v.quantum;
      current_bound =
          λ k g. let q : main ≡ k = some-injective main k g in omega (arith, v.main_bound main e);
      main_bound = v.main_bound;
      active = active_kept main 0 s.tasks s.task_count v.active;
      main_entry = entry_kept main 0 s.tasks s.main_task_id v.main_entry;
      idle = λ m g p.
          let q : main ≡ m = some-injective main m (sym e ∙ g) in
          rw (← q) (set_irq_esp_self main 0 s.tasks bound);
      saved = λ m g p. absurd (false≢true p);
      paused_runs = λ p. absurd (false≢true p);
      paused_main = λ p. absurd (false≢true p);
      runs = λ r. absurd (false≢true r);
      runs_other = λ k m r. absurd (false≢true r);
    }

-- Another task than the main loop is the current one.
pub to_task-Inv :
    (next : ℕ) (s : Sched)
    → next < s.task_count
    → ((m : ℕ) → s.main_task_id ≡ some m → next ≢ m)
    → Inv s
    → Inv (record s { current_task = some next; in_task = true })
to_task-Inv next s l n v = record {
  size = v.size;
  limit = v.limit;
  quantum = v.quantum;
  current_bound = λ k g. let q : next ≡ k = some-injective next k g in omega arith;
  main_bound = v.main_bound;
  active = v.active;
  main_entry = v.main_entry;
  idle = v.idle;
  saved = v.saved;
  paused_runs = λ p. refl;
  paused_main = v.paused_main;
  runs = λ r. (next, refl);
  runs_other = λ k m r g h. let q : next ≡ k = some-injective next k g in λ z. n m h (q ∙ z);
}
