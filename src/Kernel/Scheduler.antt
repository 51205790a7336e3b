-- ===== src/Kernel/Scheduler.antt =====
-- kernel/scheduler.c: the table of tasks and the variables of the scheduler.
pub mod Tasks
pub mod Timer
pub mod Switch
pub mod Inv
pub mod Laws
use minerva_os.Base.{ℕ, ◌+◌, ◌%◌, ◌^◌, Bool, true, false, List, Option, none, replicate}

-- `SCHED_MAX_TASKS`
abbrev pub sched_max_tasks : ℕ
sched_max_tasks = 8

-- `sched_context_t`
pub record Context : Type 0 where
  pub esp : ℕ
  pub irq_esp : ℕ
  pub resume_irq_esp : ℕ
  pub stack_base : ℕ
  pub stack_top : ℕ
  pub irq_stack_base : ℕ
  pub irq_stack_top : ℕ

-- `sched_task_t`; pointers are numbers, NULL is 0.
pub record Task : Type 0 where
  pub id : ℕ
  pub name : ℕ
  pub entry : ℕ
  pub ctx : ℕ
  pub context : Context
  pub runs : ℕ
  pub active : Bool

abbrev pub empty_task : Task
empty_task = record {
  id = 0;
  name = 0;
  entry = 0;
  ctx = 0;
  context = record {
    esp = 0;
    irq_esp = 0;
    resume_irq_esp = 0;
    stack_base = 0;
    stack_top = 0;
    irq_stack_base = 0;
    irq_stack_top = 0;
  };
  runs = 0;
  active = false;
}

-- Where the linker puts the arrays and functions of scheduler.c and its assembly.
pub record Layout : Type 0 where
  pub task_stacks : ℕ
  pub irq_stacks : ℕ
  pub main_stack : ℕ
  pub trampoline : ℕ
  pub resume_from_saved_esp : ℕ

-- `interrupt_frame_t`
pub record Frame : Type 0 where
  pub edi : ℕ
  pub esi : ℕ
  pub ebp : ℕ
  pub esp_dummy : ℕ
  pub ebx : ℕ
  pub edx : ℕ
  pub ecx : ℕ
  pub eax : ℕ
  pub gs : ℕ
  pub fs : ℕ
  pub es : ℕ
  pub ds : ℕ
  pub int_no : ℕ
  pub err_code : ℕ
  pub eip : ℕ
  pub cs : ℕ
  pub eflags : ℕ
  pub useresp : ℕ
  pub ss : ℕ

-- `sizeof(interrupt_frame_t)`
abbrev pub frame_size : ℕ
frame_size = 76

abbrev pub zero_frame : Frame
zero_frame = record {
  edi = 0;
  esi = 0;
  ebp = 0;
  esp_dummy = 0;
  ebx = 0;
  edx = 0;
  ecx = 0;
  eax = 0;
  gs = 0;
  fs = 0;
  es = 0;
  ds = 0;
  int_no = 0;
  err_code = 0;
  eip = 0;
  cs = 0;
  eflags = 0;
  useresp = 0;
  ss = 0;
}

-- The static variables of scheduler.c. An index that is -1 there is `none`; `irq_frames` are the
-- frames at the tops of `irq_stacks`, the only words of that array that the code writes.
pub record Sched : Type 0 where
  pub tasks : List Task
  pub task_stacks : List (List ℕ)
  pub irq_frames : List Frame
  pub task_count : ℕ
  pub current_task : Option ℕ
  pub ticks_in_quantum : ℕ
  pub switch_count : ℕ
  pub timer_request_count : ℕ
  pub irq_frame_count : ℕ
  pub irq_context_count : ℕ
  pub irq_candidate_count : ℕ
  pub irq_preempt_switch_count : ℕ
  pub irq_preempt_blocked_count : ℕ
  pub main_capture_count : ℕ
  pub main_captured_esp : ℕ
  pub sched_debug_marker : ℕ
  pub main_to_task_count : ℕ
  pub irq_to_main_count : ℕ
  pub yield_to_main_count : ℕ
  pub main_paused_via_irq : Bool
  pub last_irq_eip : ℕ
  pub switch_pending : Bool
  pub irq_candidate_ready : Bool
  pub preemptive_enabled : Bool
  pub main_switch_enabled : Bool
  pub in_task : Bool
  pub main_task_id : Option ℕ

-- `x++` on a `uint32_t`.
abbrev pub inc : ℕ → ℕ
inc n = (n + 1) % 2 ^ 32

-- `scheduler_init`, which leaves `sched_debug_marker` as it was.
unfoldable pub scheduler_init : ℕ → Sched
scheduler_init marker = record {
  tasks = replicate sched_max_tasks empty_task;
  task_stacks = replicate sched_max_tasks (replicate 256 0);
  irq_frames = replicate sched_max_tasks zero_frame;
  task_count = 0;
  current_task = none;
  ticks_in_quantum = 0;
  switch_count = 0;
  timer_request_count = 0;
  irq_frame_count = 0;
  irq_context_count = 0;
  irq_candidate_count = 0;
  irq_preempt_switch_count = 0;
  irq_preempt_blocked_count = 0;
  main_capture_count = 0;
  main_captured_esp = 0;
  sched_debug_marker = marker;
  main_to_task_count = 0;
  irq_to_main_count = 0;
  yield_to_main_count = 0;
  main_paused_via_irq = false;
  last_irq_eip = 0;
  switch_pending = false;
  irq_candidate_ready = false;
  preemptive_enabled = false;
  main_switch_enabled = false;
  in_task = false;
  main_task_id = none;
}
