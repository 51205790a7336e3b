-- ===== src/Kernel/Scheduler/Inv.antt =====
-- kernel/scheduler.c: the invariant, and what a write to a task's saved frame keeps.
use minerva_os.Base.{
  ℕ, ◌≡◌, ◌≢◌, ◌<◌, ◌≤◌, ap, ◌∙◌, Bool, true, false, ◌==◌, List, Option, some, arith, length,
  get_or, length-set, get_or-set_self, get_or-set_ne, get_or-set_out, Bool-cases, ==_iff, ltb,
  ltb→lt, not_ltb→le, inl, inr,
}
use minerva_os.Kernel.Scheduler.{Sched, Task, empty_task, sched_max_tasks}
use minerva_os.Kernel.Scheduler.Timer.{set_irq_esp}

-- What the scheduler keeps between its calls, of the variables that decide what runs.
pub record InvOf (tasks : List Task) (count ticks : ℕ) (current main : Option ℕ)
    (paused in_task : Bool) : Type 0 where
  pub size : length tasks ≡ sched_max_tasks
  pub limit : count ≤ sched_max_tasks
  pub quantum : ticks < 10
  pub current_bound : (c : ℕ) → current ≡ some c → c < count
  pub main_bound : (m : ℕ) → main ≡ some m → m < count
  pub active : (i : ℕ) → i < count → (get_or tasks i empty_task).active ≡ true
  pub main_entry : (m : ℕ) → main ≡ some m → (get_or tasks m empty_task).entry ≡ 0
  -- The main loop has a saved frame exactly while an interrupt has paused it.
  pub idle :
      (m : ℕ) → main ≡ some m → paused ≡ false → (get_or tasks m empty_task).context.irq_esp ≡ 0
  pub saved :
      (m : ℕ) → main ≡ some m → paused ≡ true → (get_or tasks m empty_task).context.irq_esp ≢ 0
  pub paused_runs : paused ≡ true → in_task ≡ true
  pub paused_main : paused ≡ true → (m : ℕ) × (main ≡ some m)
  -- A task that runs is not the main loop.
  pub runs : in_task ≡ true → (c : ℕ) × (current ≡ some c)
  pub runs_other : (c m : ℕ) → in_task ≡ true → current ≡ some c → main ≡ some m → c ≢ m

abbrev pub Inv : Sched → Type 0
Inv s =
    InvOf s.tasks s.task_count s.ticks_in_quantum s.current_task s.main_task_id
      s.main_paused_via_irq s.in_task

module _ (i v : ℕ) (ts : List Task) where
  pub length-set_irq_esp : length (set_irq_esp i v ts) ≡ length ts
  length-set_irq_esp = length-set ts i _

  pub set_irq_esp_other :
      (j : ℕ) → i ≢ j → get_or (set_irq_esp i v ts) j empty_task ≡ get_or ts j empty_task
  set_irq_esp_other j n = get_or-set_ne ts i j _ empty_task n

  pub set_irq_esp_self :
      i < length ts → (get_or (set_irq_esp i v ts) i empty_task).context.irq_esp ≡ v
  set_irq_esp_self l = ap (λ t. t.context.irq_esp) (get_or-set_self ts i _ empty_task l)

  -- A field that the write does not touch is kept at every index.
  pub set_irq_esp_kept {ℓ} :
      {A : Type ℓ} (f : Task → A)
      → ((t : Task) → f (record t { context = record t.context { irq_esp = v } }) ≡ f t)
      → (j : ℕ) → f (get_or (set_irq_esp i v ts) j empty_task) ≡ f (get_or ts j empty_task)
  set_irq_esp_kept f k j = elim (Bool-cases (i == j)) [
    | inl e ↦
        let e' : i ≡ j = (==_iff i j).0 e in
        rw (← e') (elim (Bool-cases (ltb i (length ts))) [
          | inl l ↦ ap f (get_or-set_self ts i _ empty_task (ltb→lt _ _ l)) ∙ k _
          | inr l ↦ ap f (get_or-set_out ts i _ empty_task (not_ltb→le _ _ l))
        ])
    | inr n ↦ ap f (set_irq_esp_other j (ground arith))
  ]
