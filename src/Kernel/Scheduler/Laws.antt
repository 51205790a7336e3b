-- ===== src/Kernel/Scheduler/Laws.antt =====
-- kernel/scheduler.c: every step keeps the invariant.
pub mod Moves
pub mod Reach
pub mod Writes
pub mod Interrupt
pub mod Coop
pub mod Choice
pub mod Ticks
use minerva_os.Base.{
  ℕ, zero, suc, ◌+◌, ◌%◌, ◌≡◌, ◌≢◌, ◌<◌, ◌≤◌, refl, ap, sym, ◌∙◌, Bool, true, false, not, ◌&&◌,
  ◌||◌, ◌==◌, ==_iff, leb, leb→le, if◌then◌else◌, List, [], ◌∷◌, Option, none, some, arith, length,
  get_or, set, length-set, get_or-set_self, get_or-set_ne, replicate, length-replicate, Bool-cases,
  Option-cases, inl, inr, none-ne-some, some-injective, false≢true, true≢false,
}
use minerva_os.Kernel.Scheduler.{
  Sched, Task, Layout, Context, empty_task, sched_max_tasks, inc, scheduler_init,
}
use minerva_os.Kernel.Scheduler.Tasks.{
  task_at, is_set, or_zero, kernel_task, main_task, scheduler_create_kernel_task,
  scheduler_register_main_task,
}
use minerva_os.Kernel.Scheduler.Inv.{Inv, InvOf}

pub scheduler_init-Inv : (marker : ℕ) → Inv (scheduler_init marker)
unfolding scheduler_init
scheduler_init-Inv marker = record {
  size = refl;
  limit = omega arith;
  quantum = omega arith;
  current_bound = λ c e. absurd (none-ne-some c e);
  main_bound = λ m e. absurd (none-ne-some m e);
  active = λ i l. absurd (omega arith);
  main_entry = λ m e. absurd (none-ne-some m e);
  idle = λ m e. absurd (none-ne-some m e);
  saved = λ m e. absurd (none-ne-some m e);
  paused_runs = λ e. absurd (false≢true e);
  paused_main = λ e. absurd (false≢true e);
  runs = λ e. absurd (false≢true e);
  runs_other = λ c m e. absurd (false≢true e);
}

-- A new task at the index `count` is none of the tasks before it.
kept_at :
    (ts : List Task) (count : ℕ) (t : Task) (i : ℕ)
    → i < count
    → get_or (set ts count t) i empty_task ≡ get_or ts i empty_task
kept_at ts count t i l = get_or-set_ne ts count i t empty_task (λ e. absurd (omega arith))

active_after :
    (ts : List Task) (count : ℕ) (t : Task)
    → count < length ts
    → t.active ≡ true
    → ((i : ℕ) → i < count → (get_or ts i empty_task).active ≡ true)
    → (i : ℕ) → i < count + 1
    → (get_or (set ts count t) i empty_task).active ≡ true
active_after ts count t l a h i b = elim (Bool-cases (i == count)) [
  | inl e ↦
      let e' : i ≡ count = (==_iff i count).0 e in
      rw e' (ap (λ x. x.active) (get_or-set_self ts count t empty_task l) ∙ a)
  | inr n ↦
      let b' : i < count = ground arith in ap (λ x. x.active) (kept_at ts count t i b') ∙ h i b'
]

first_bound :
    (o : Option ℕ) (count : ℕ)
    → ((c : ℕ) → o ≡ some c → c < count)
    → (c : ℕ) → or_zero o ≡ some c
    → c < count + 1
first_bound none count h c e = let z : 0 ≡ c = some-injective 0 c e in omega arith
first_bound (some d) count h c e = omega (arith, h c e)

pub create-Inv :
    (l : Layout) (name entry ctx : ℕ) (s : Sched)
    → Inv s
    → Inv (scheduler_create_kernel_task l name entry ctx s).1
unfolding scheduler_create_kernel_task kernel_task
create-Inv l name entry ctx s v =
    elim (Bool-cases (name == 0 || entry == 0 || leb sched_max_tasks s.task_count)) [
      | inl e ↦ rw e v
      | inr e ↦
          let b : s.task_count < 8 = ground arith in
          rw e (record {
            size = length-set s.tasks s.task_count _ ∙ v.size;
            limit = omega arith;
            quantum = v.quantum;
            current_bound = first_bound s.current_task s.task_count v.current_bound;
            main_bound = λ m e. omega (arith, v.main_bound m e);
            active = active_after s.tasks s.task_count _ (omega (arith, v.size)) refl v.active;
            main_entry = λ m e.
                ap (λ x. x.entry) (kept_at s.tasks s.task_count _ m (v.main_bound m e))
                ∙ v.main_entry m e;
            idle = λ m e f.
                ap (λ x. x.context.irq_esp) (kept_at s.tasks s.task_count _ m (v.main_bound m e))
                ∙ v.idle m e f;
            saved = λ m e f z. v.saved m e f (
                sym (
                  ap (λ x. x.context.irq_esp) (kept_at s.tasks s.task_count _ m (v.main_bound m e)))
                ∙ z);
            paused_runs = v.paused_runs;
            paused_main = v.paused_main;
            runs = λ r. let (c, e) = v.runs r in (c, ap or_zero e);
            runs_other = λ c m r e f.
                let (d, g) = v.runs r in
                let same : d ≡ c = some-injective d c (sym (ap or_zero g) ∙ e) in
                rw (← same) (v.runs_other d m r g f);
          })
    ]

pub register-Inv :
    (l : Layout) (name : ℕ) (s : Sched) → Inv s → Inv (scheduler_register_main_task l name s).1
unfolding scheduler_register_main_task main_task
register-Inv l name s v =
    elim (Bool-cases (name == 0 || leb sched_max_tasks s.task_count || is_set s.main_task_id)) [
      | inl e ↦ rw e v
      | inr e ↦
          let b : s.task_count < 8 = ground arith in
          let new = main_task l s.task_count name in
          let here : get_or (set s.tasks s.task_count new) s.task_count empty_task ≡ new =
            get_or-set_self s.tasks s.task_count new empty_task (omega (arith, v.size)) in
          let at' : (m : ℕ) → some s.task_count ≡ some m → s.task_count ≡ m =
            λ m e. some-injective s.task_count m e in
          rw e (record {
            size = length-set s.tasks s.task_count _ ∙ v.size;
            limit = omega arith;
            quantum = v.quantum;
            current_bound = λ c e. omega (arith, v.current_bound c e);
            main_bound = λ m e. omega (arith, at' m e);
            active = active_after s.tasks s.task_count _ (omega (arith, v.size)) refl v.active;
            main_entry = λ m e. rw (← at' m e) (ap (λ x. x.entry) here);
            idle = λ m e f. rw (← at' m e) (ap (λ x. x.context.irq_esp) here);
            saved = λ m f p z.
                let (k, q) = v.paused_main p in
                let unset : is_set s.main_task_id ≡ false = ground arith in
                absurd (true≢false (sym (ap is_set q) ∙ unset));
            paused_runs = v.paused_runs;
            paused_main = λ p. (s.task_count, refl);
            runs = v.runs;
            runs_other = λ c m r e f g. absurd (omega (arith, v.current_bound c e, at' m f, g));
          })
    ]
