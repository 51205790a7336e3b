-- ===== src/Kernel/UserScheduler.antt =====
-- kernel/user_scheduler.c, with `usermode_fill_test_context` of kernel/usermode.c: one ready user
-- process runs each time the kernel arms the launcher.
pub mod Laws
use minerva_os.Base.{ℕ, Bool, true, false, if◌then◌else◌, List, Option, none, some}
use minerva_os.Kernel.Process.{
  Table, UserContext, running, zombie, process_get_ready_user, process_record_user,
}
use minerva_os.Kernel.Scheduler.{Sched, inc}
use minerva_os.Kernel.Scheduler.Tasks.{scheduler_set_preemptive_enabled}

-- The static variables of user_scheduler.c, with the tables that it works on.
pub record Launcher : Type 0 where
  pub armed : Bool
  pub runs : ℕ
  pub launches : ℕ
  pub idle_count : ℕ
  pub no_ready_count : ℕ
  pub last_pid : ℕ
  pub last_result : ℕ
  pub table : Table
  pub sched : Sched

-- What the run of a user program leaves: the word that `usermode_run_context` returns, what the
-- getters `syscall_get_last_eax`, `syscall_get_last_cs` and `syscall_get_user_count` answer then, and
-- the scheduler's variables, which interrupts change meanwhile.
pub record Outcome : Type 0 where
  pub result : ℕ
  pub last_eax : ℕ
  pub last_cs : ℕ
  pub user_count : ℕ
  pub sched : Sched

-- The user program under the CPU, and the addresses that the linker gives its entry and its stack.
pub record Machine : Type 0 where
  pub usermode_run_context : UserContext → Sched → Outcome
  pub user_test_entry : ℕ
  pub user_stack_top : ℕ

-- `user_scheduler_init`
unfoldable pub user_scheduler_init : Table → Sched → Launcher
user_scheduler_init table sched = record {
  armed = false;
  runs = 0;
  launches = 0;
  idle_count = 0;
  no_ready_count = 0;
  last_pid = 0;
  last_result = 0;
  table = table;
  sched = sched;
}

-- `usermode_fill_context`
unfoldable pub usermode_fill_context : Machine → ℕ → ℕ → ℕ → ℕ → ℕ → ℕ → ℕ → ℕ → UserContext
usermode_fill_context machine eip eax cs count vector fault_eip address error = record {
  eip = eip;
  esp = machine.user_stack_top;
  cs = 0x1B;
  ss = 0x23;
  eflags = 0x202;
  last_syscall_eax = eax;
  last_syscall_cs = cs;
  syscall_count = count;
  fault_vector = vector;
  fault_eip = fault_eip;
  fault_address = address;
  fault_error = error;
}

-- `usermode_fill_test_context`
unfoldable pub usermode_fill_test_context : Machine → ℕ → ℕ → ℕ → UserContext
usermode_fill_test_context machine eax cs count =
    usermode_fill_context machine machine.user_test_entry eax cs count 0 0 0 0

-- `user_scheduler_task` from the second `armed = 0` on.
unfoldable pub launch : Machine → List ℕ → ℕ → UserContext → Launcher → Launcher
launch machine name pid context s =
    let started = (process_record_user (some name) (some context) running s.table).1 in
    let was_preemptive = if s.sched.preemptive_enabled then 1 else 0 in
    let out = machine.usermode_run_context context (scheduler_set_preemptive_enabled 0 s.sched) in
    let after = usermode_fill_test_context machine out.last_eax out.last_cs out.user_count in
    record s {
      armed = false;
      launches = inc s.launches;
      last_pid = pid;
      last_result = out.result;
      table = (process_record_user (some name) (some after) zombie started).1;
      sched = scheduler_set_preemptive_enabled was_preemptive out.sched;
    }

-- `user_scheduler_task`
unfoldable pub user_scheduler_task : Machine → Launcher → Launcher
user_scheduler_task machine s =
    let counted = record s { runs = inc s.runs } in
    if s.armed
    then elim (process_get_ready_user s.table) [
      | none ↦ record counted {
        armed = false;
        idle_count = inc s.idle_count;
        no_ready_count = inc s.no_ready_count;
      }
      | some (name, pid, context) ↦ launch machine name pid context counted
    ]
    else record counted { idle_count = inc s.idle_count }

-- `user_scheduler_arm`: whether it armed the launcher.
unfoldable pub user_scheduler_arm : Launcher → Bool × Launcher
user_scheduler_arm s = elim (process_get_ready_user s.table) [
  | none ↦ (false, record s { armed = false; no_ready_count = inc s.no_ready_count })
  | some found ↦ (true, record s { armed = true })
]
