-- ===== src/Kernel/Scheduler/Tasks.antt =====
-- kernel/scheduler.c: how tasks come to be, and what the queries answer.
use minerva_os.Base.{
  ℕ, ◌+◌, ◌-◌, ◌*◌, ◌%◌, ◌^◌, Bool, true, false, not, ◌&&◌, ◌||◌, if◌then◌else◌, List, [], Option,
  none, some, get_or, set, ◌==◌, leb,
}
use minerva_os.Kernel.Scheduler.{
  Sched, Task, Layout, Frame, zero_frame, frame_size, empty_task, sched_max_tasks, inc,
}

abbrev pub task_at : Sched → ℕ → Task
task_at s i = get_or s.tasks i empty_task

-- `make_initial_esp`: the value returned.
unfoldable pub make_initial_esp : Layout → ℕ → ℕ
make_initial_esp l id = (l.task_stacks + id * 1024 + 1024 - 20) % 2 ^ 32

-- `make_initial_esp`: the five words that it pushes.
unfoldable pub initial_stack : Layout → List ℕ → List ℕ
initial_stack l stack = set (set (set (set (set stack 255 l.trampoline) 254 0) 253 0) 252 0) 251 0

-- `make_resume_irq_esp`: the value returned.
unfoldable pub make_resume_irq_esp : Layout → ℕ → ℕ
make_resume_irq_esp l id = (l.irq_stacks + id * 1024 + 1024 - frame_size) % 2 ^ 32

-- `make_resume_irq_esp`: the frame that it writes.
unfoldable pub resume_frame : Layout → ℕ → Frame
resume_frame l esp = record zero_frame {
  eax = esp;
  gs = 0x10;
  fs = 0x10;
  es = 0x10;
  ds = 0x10;
  int_no = 32;
  eip = l.resume_from_saved_esp;
  cs = 8;
  eflags = 0x202;
}

-- What `scheduler_create_kernel_task` writes to `tasks[id]`.
unfoldable pub kernel_task : Layout → ℕ → ℕ → ℕ → ℕ → Task
kernel_task l id name entry ctx = record {
  id = id;
  name = name;
  entry = entry;
  ctx = ctx;
  context = record {
    esp = make_initial_esp l id;
    irq_esp = make_resume_irq_esp l id;
    resume_irq_esp = make_resume_irq_esp l id;
    stack_base = (l.task_stacks + id * 1024) % 2 ^ 32;
    stack_top = (l.task_stacks + id * 1024 + 1024) % 2 ^ 32;
    irq_stack_base = (l.irq_stacks + id * 1024) % 2 ^ 32;
    irq_stack_top = (l.irq_stacks + id * 1024 + 1024) % 2 ^ 32;
  };
  runs = 0;
  active = true;
}

abbrev pub or_zero : Option ℕ → Option ℕ
or_zero none = some 0
or_zero (some i) = some i

-- `scheduler_create_kernel_task`: the id (`none` for -1).
unfoldable pub scheduler_create_kernel_task : Layout → ℕ → ℕ → ℕ → Sched → Option ℕ × Sched
scheduler_create_kernel_task l name entry ctx s =
    let id = s.task_count in
    if name == 0 || entry == 0 || leb sched_max_tasks s.task_count then (none, s) else (
      some id,
      record s {
        tasks = set s.tasks id (kernel_task l id name entry ctx);
        task_stacks = set s.task_stacks id (initial_stack l (get_or s.task_stacks id []));
        irq_frames = set s.irq_frames id (resume_frame l (make_initial_esp l id));
        irq_context_count = inc s.irq_context_count;
        task_count = s.task_count + 1;
        current_task = or_zero s.current_task;
      },
    )

-- `scheduler_main_stack_base`, `scheduler_main_stack_top`
unfoldable pub scheduler_main_stack_base : Layout → ℕ
scheduler_main_stack_base l = l.main_stack

unfoldable pub scheduler_main_stack_top : Layout → ℕ
scheduler_main_stack_top l = (l.main_stack + 8192) % 2 ^ 32

-- What `scheduler_register_main_task` writes to `tasks[id]`.
unfoldable pub main_task : Layout → ℕ → ℕ → Task
main_task l id name = record {
  id = id;
  name = name;
  entry = 0;
  ctx = 0;
  context = record {
    esp = 0;
    irq_esp = 0;
    resume_irq_esp = 0;
    stack_base = scheduler_main_stack_base l;
    stack_top = scheduler_main_stack_top l;
    irq_stack_base = 0;
    irq_stack_top = 0;
  };
  runs = 0;
  active = true;
}

-- An index is not -1.
abbrev pub is_set : Option ℕ → Bool
is_set none = false
is_set (some i) = true

-- `scheduler_register_main_task`
unfoldable pub scheduler_register_main_task : Layout → ℕ → Sched → Option ℕ × Sched
scheduler_register_main_task l name s =
    let id = s.task_count in
    if name == 0 || leb sched_max_tasks s.task_count || is_set s.main_task_id then (none, s) else (
      some id,
      record s {
        tasks = set s.tasks id (main_task l id name);
        task_count = s.task_count + 1;
        main_task_id = some id;
      },
    )

-- An index as a `uint32_t`.
abbrev index_word : Option ℕ → ℕ
index_word none = 2 ^ 32 - 1
index_word (some i) = i

unfoldable pub scheduler_main_task_id : Sched → ℕ
scheduler_main_task_id s = index_word s.main_task_id

unfoldable pub scheduler_current_task_id : Sched → ℕ
scheduler_current_task_id s = index_word s.current_task

unfoldable pub scheduler_running_task_id : Sched → ℕ
scheduler_running_task_id s =
    if not s.in_task && is_set s.main_task_id
    then index_word s.main_task_id
    else index_word s.current_task

unfoldable pub scheduler_set_preemptive_enabled : ℕ → Sched → Sched
scheduler_set_preemptive_enabled e s = record s { preemptive_enabled = not (e == 0) }

unfoldable pub scheduler_set_main_switch_enabled : ℕ → Sched → Sched
scheduler_set_main_switch_enabled e s = record s { main_switch_enabled = not (e == 0) }
