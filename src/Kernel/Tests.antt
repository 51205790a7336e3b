-- ===== src/Kernel/Tests.antt =====
-- kernel/ and libc/string.c: the theorems at concrete tables.
use minerva_os.Base.{
  ℕ, ◌+◌, ◌/◌, ◌%◌, ◌^◌, ◌<◌, ◌≡◌, ◌⊎◌, refl, find_index, List, [], ◌∷◌, none, some, arith,
}
use minerva_os.Kernel.Names.{strcmp}
use minerva_os.Kernel.Process.{
  UserContext, zero_context, running, ready, process_init, process_record_user, process_find_user,
  process_alloc, record_new, process_get_user_context,
}
use minerva_os.Kernel.Process.Slots.{
  Recorded, Updated, process_init-WellFormed, process_record_user-cases,
}
use minerva_os.Kernel.Process.Lookup.{process_get_user_context-process_record_user}
use minerva_os.Kernel.Scheduler.{inc, Sched, Layout, scheduler_init}
use minerva_os.Kernel.Scheduler.Tasks.{scheduler_create_kernel_task, scheduler_register_main_task}
use minerva_os.Kernel.Scheduler.Timer.{scheduler_next_active_irq_task}
use minerva_os.Kernel.Scheduler.Inv.{Inv}
use minerva_os.Kernel.Scheduler.Laws.Choice.{
  FirstResumable, Resumable, position, scheduler_next_active_irq_task-cases,
}
use minerva_os.Kernel.Scheduler.Laws.Ticks.{Requests, ticks, ticks_lem}
use minerva_os.Kernel.Scheduler.Laws.Reach.{QuietReach, start, next, create, register, Reach-Inv}
use minerva_os.Kernel.UserScheduler.{Launcher, Machine, user_scheduler_init, user_scheduler_task}
use minerva_os.Kernel.UserScheduler.Laws.{user_scheduler_task-user_scheduler_task}

-- "init" and "shell"
abbrev init_name : List ℕ
init_name = b'i' ∷ b'n' ∷ b'i' ∷ b't' ∷ []

abbrev shell_name : List ℕ
shell_name = b's' ∷ b'h' ∷ []

abbrev context : UserContext
context = record zero_context { eip = 0x400000; esp = 0x7FF000 }

process_record_user-cases_example :
    let r = process_record_user (some shell_name) (some context) running process_init in
    Recorded shell_name context running process_init r
    ⊎ Updated shell_name context running process_init r
process_record_user-cases_example =
    process_record_user-cases shell_name context running process_init process_init-WellFormed

recorded_pid :
    (process_record_user (some shell_name) (some context) running process_init).0 ≡ some 1
unfolding process_record_user process_find_user process_init process_alloc record_new find_index
    strcmp
recorded_pid = refl

process_get_user_context-process_record_user_example :
    process_get_user_context
      (some shell_name)
      (process_record_user (some shell_name) (some context) running process_init).1
    ≡ some context
process_get_user_context-process_record_user_example =
    process_get_user_context-process_record_user shell_name context running process_init 1
      recorded_pid

abbrev layout : Layout
layout = record {
  task_stacks = 0x20000;
  irq_stacks = 0x22000;
  main_stack = 0x24000;
  trampoline = 0x9000;
  resume_from_saved_esp = 0x9100;
}

-- The main loop and one task.
abbrev two_tasks : Sched
two_tasks =
    (scheduler_create_kernel_task layout 0x8100 0x8200 0
      (scheduler_register_main_task layout 0x8000 (scheduler_init 0)).1).1

two_tasks-Reach : QuietReach layout two_tasks
two_tasks-Reach = next (next (start 0) (register 0x8000)) (create 0x8100 0x8200 0)

scheduler_next_active_irq_task-cases_example :
    ((scheduler_next_active_irq_task two_tasks ≡ none)
      × ((k : ℕ)
          → k < two_tasks.task_count
          → ¬ Resumable two_tasks (position two_tasks.task_count two_tasks.current_task k)))
    ⊎ ((i : ℕ) × (scheduler_next_active_irq_task two_tasks ≡ some i) × FirstResumable two_tasks i)
scheduler_next_active_irq_task-cases_example =
    scheduler_next_active_irq_task-cases two_tasks (Reach-Inv two_tasks-Reach).current_bound

ticks_lem_example :
    ((ticks 25 two_tasks).ticks_in_quantum ≡ (two_tasks.ticks_in_quantum + 25) % 10)
    × ((ticks 25 two_tasks).timer_request_count
        ≡ (two_tasks.timer_request_count + (two_tasks.ticks_in_quantum + 25) / 10) % 2 ^ 32)
    × Requests (two_tasks.ticks_in_quantum + 25) two_tasks (ticks 25 two_tasks)
unfolding scheduler_create_kernel_task scheduler_register_main_task scheduler_init
ticks_lem_example = ticks_lem 25 two_tasks (omega arith) (omega arith) (omega arith)

-- A program that makes one system call and keeps the scheduler as it is.
abbrev machine : Machine
machine = record {
  usermode_run_context = λ c s. record {
    result = 0x55534552;
    last_eax = 7;
    last_cs = 0x1B;
    user_count = 1;
    sched = s;
  };
  user_test_entry = 0x400000;
  user_stack_top = 0x7FF000;
}

-- A launcher with one process to run.
abbrev launcher : Launcher
launcher =
    user_scheduler_init (process_record_user (some shell_name) (some context) ready process_init).1
      two_tasks

user_scheduler_task-user_scheduler_task_example :
    let once = user_scheduler_task machine launcher in
    user_scheduler_task machine once
    ≡ record once { runs = inc once.runs; idle_count = inc once.idle_count }
user_scheduler_task-user_scheduler_task_example =
    user_scheduler_task-user_scheduler_task machine launcher
