-- ===== src/Kernel/UserScheduler/Laws.antt =====
-- kernel/user_scheduler.c: an arm is one launch of the first ready user process.
use minerva_os.Base.{
  ℕ, ◌<◌, length, find_index, ◌≡◌, refl, true, false, List, some, inl, inr, get_or, find_index,
  Found, Bool-cases, Option-cases,
}
use minerva_os.Kernel.Process.{
  Process, Table, ProcessState, UserContext, ready, zombie, empty_slot, is_user_named,
  process_get_ready_user,
}
use minerva_os.Kernel.Scheduler.{inc}
use minerva_os.Kernel.Scheduler.Tasks.{scheduler_set_preemptive_enabled}
use minerva_os.Kernel.UserScheduler.{
  Launcher, Machine, Outcome, launch, user_scheduler_task, usermode_fill_test_context,
}

-- The table has a user process of the name, at the slot that `process_find_user` answers.
pub record Known (n : List ℕ) (t : Table) : Type 0 where
  pub slot : ℕ
  pub found : find_index (is_user_named n) t.processes ≡ some slot
  pub there : Found (is_user_named n) t.processes slot empty_slot

-- The user process found under the name has the context and the state.
pub record Recorded (n : List ℕ) (c : UserContext) (st : ProcessState) (t : Table) : Type 0 where
  pub known : Known n t
  pub user_context : (get_or t.processes known.slot empty_slot).user_context ≡ c
  pub state : (get_or t.processes known.slot empty_slot).state ≡ st

-- What one launch of the process `n` does.
pub record Launched (machine : Machine) (n : List ℕ) (pid : ℕ) (c : UserContext)
    (before after : Launcher) : Type 0 where
  pub armed : after.armed ≡ false
  pub runs : after.runs ≡ inc before.runs
  pub launches : after.launches ≡ inc before.launches
  pub last_pid : after.last_pid ≡ pid
  pub out : Outcome
  pub ran : out ≡ machine.usermode_run_context c (scheduler_set_preemptive_enabled 0 before.sched)
  pub last_result : after.last_result ≡ out.result
  pub recorded :
      Recorded n
        (usermode_fill_test_context machine out.last_eax out.last_cs out.user_count)
        zombie
        after.table
  pub preemption :
      after.sched ≡ record out.sched { preemptive_enabled = before.sched.preemptive_enabled }

-- A user process that is ready.
abbrev pub Waiting : Process → Type 0
Waiting p = (p.used ≡ true) × (p.kernel ≡ false) × (p.state ≡ ready)

-- The first slot of the table with such a process.
pub record FirstWaiting (t : Table) (i : ℕ) : Type 0 where
  pub bound : i < length t.processes
  pub waiting : Waiting (get_or t.processes i empty_slot)
  pub before : (j : ℕ) → j < i → ¬ Waiting (get_or t.processes j empty_slot)

task-disarms : (machine : Machine) (s : Launcher) → (user_scheduler_task machine s).armed ≡ false
unfolding user_scheduler_task launch
task-disarms machine s = elim (Bool-cases s.armed) [
  | inl a ↦ elim (Option-cases (process_get_ready_user s.table)) [
    | inl e ↦ rw (user_scheduler_task, a, e) refl
    | inr (found, e) ↦ rw (user_scheduler_task, a, e) refl
  ]
  | inr a ↦ rw (user_scheduler_task, a) refl
]

task_idle :
    (machine : Machine) (s : Launcher)
    → s.armed ≡ false
    → user_scheduler_task machine s ≡ record s { runs = inc s.runs; idle_count = inc s.idle_count }
unfolding user_scheduler_task
task_idle machine s a = rw (user_scheduler_task, a) refl

-- Without another arm, the task that runs after a first one launches nothing: it counts itself as
-- idle and changes nothing else, whatever the first one did.
pub user_scheduler_task-user_scheduler_task :
    (machine : Machine) (s : Launcher)
    → let once = user_scheduler_task machine s in
      user_scheduler_task machine once
      ≡ record once { runs = inc once.runs; idle_count = inc once.idle_count }
user_scheduler_task-user_scheduler_task machine s =
    task_idle machine (user_scheduler_task machine s) (task-disarms machine s)
