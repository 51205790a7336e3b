-- ===== src/Kernel/Scheduler/Laws/Writes.antt =====
-- kernel/scheduler.c: writes to one task that the invariant does not read.
use minerva_os.Base.{
  ℕ, ◌≡◌, refl, ap, sym, ◌∙◌, ◌==◌, ==_iff, List, arith, length, get_or, set, Bool-cases, inl, inr,
  ltb, ltb→lt, not_ltb→le, length-set, get_or-set_self, get_or-set_ne, get_or-set_out,
}
use minerva_os.Kernel.Scheduler.{Sched, Task, empty_task}
use minerva_os.Kernel.Scheduler.Switch.{save_esp}
use minerva_os.Kernel.Scheduler.Inv.{Inv}

-- A change of one task that keeps what the invariant reads.
module _ (i : ℕ) (g : Task → Task) (ts : List Task) where
  changed : List Task
  changed = set ts i (g (get_or ts i empty_task))

  changed_kept {ℓ} :
      {A : Type ℓ} (f : Task → A)
      → ((t : Task) → f (g t) ≡ f t)
      → (j : ℕ) → f (get_or changed j empty_task) ≡ f (get_or ts j empty_task)
  unfolding changed
  changed_kept f k j = elim (Bool-cases (i == j)) [
    | inl e ↦
        let e' : i ≡ j = (==_iff i j).0 e in
        rw (← e') (elim (Bool-cases (ltb i (length ts))) [
          | inl l ↦ ap f (get_or-set_self ts i _ empty_task (ltb→lt _ _ l)) ∙ k _
          | inr l ↦ ap f (get_or-set_out ts i _ empty_task (not_ltb→le _ _ l))
        ])
    | inr n ↦ ap f (get_or-set_ne ts i j _ empty_task (ground arith))
  ]

pub changed-Inv :
    (i : ℕ) (g : Task → Task) (s : Sched)
    → ((t : Task) → (g t).active ≡ t.active)
    → ((t : Task) → (g t).entry ≡ t.entry)
    → ((t : Task) → (g t).context.irq_esp ≡ t.context.irq_esp)
    → Inv s
    → Inv (record s { tasks = set s.tasks i (g (get_or s.tasks i empty_task)) })
unfolding changed
changed-Inv i g s a e r v = record {
  size = length-set s.tasks i _ ∙ v.size;
  limit = v.limit;
  quantum = v.quantum;
  current_bound = v.current_bound;
  main_bound = v.main_bound;
  active = λ j l. changed_kept i g s.tasks (λ t. t.active) a j ∙ v.active j l;
  main_entry = λ m h. changed_kept i g s.tasks (λ t. t.entry) e m ∙ v.main_entry m h;
  idle = λ m h p. changed_kept i g s.tasks (λ t. t.context.irq_esp) r m ∙ v.idle m h p;
  saved =
      λ m h p z. v.saved m h p (sym (changed_kept i g s.tasks (λ t. t.context.irq_esp) r m) ∙ z);
  paused_runs = v.paused_runs;
  paused_main = v.paused_main;
  runs = v.runs;
  runs_other = v.runs_other;
}

pub save_esp-Inv :
    (i esp : ℕ) (s : Sched) → Inv s → Inv (record s { tasks = save_esp i esp s.tasks })
unfolding save_esp
save_esp-Inv i esp s v =
    changed-Inv i (λ t. record t { context = record t.context { esp = esp } }) s (λ t. refl)
      (λ t. refl) (λ t. refl) v
