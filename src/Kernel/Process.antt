-- ===== src/Kernel/Process.antt =====
-- kernel/process.c: the process table.
pub mod Slots
pub mod Lookup
use minerva_os.Base.{
  ℕ, ◌+◌, ◌-◌, ◌%◌, ◌^◌, Bool, true, false, not, ◌&&◌, if◌then◌else◌, List, [], ◌∷◌, Option, none,
  some, replicate, get_or, set, find_index,
}
use minerva_os.Kernel.Names.{same_name}

-- `PROCESS_MAX`
abbrev pub process_max : ℕ
process_max = 16

-- `PROCESS_NO_TASK`
abbrev pub process_no_task : ℕ
process_no_task = 2 ^ 32 - 1

-- `process_state_t`
pub data ProcessState : Type 0 where
  unused ready running blocked zombie : ProcessState

abbrev pub is_ready : ProcessState → Bool
is_ready unused = false
is_ready ready = true
is_ready running = false
is_ready blocked = false
is_ready zombie = false

-- `user_context_t`
pub record UserContext : Type 0 where
  pub eip : ℕ
  pub esp : ℕ
  pub cs : ℕ
  pub ss : ℕ
  pub eflags : ℕ
  pub last_syscall_eax : ℕ
  pub last_syscall_cs : ℕ
  pub syscall_count : ℕ
  pub fault_vector : ℕ
  pub fault_eip : ℕ
  pub fault_address : ℕ
  pub fault_error : ℕ

-- A context that `memset` cleared.
abbrev pub zero_context : UserContext
zero_context = record {
  eip = 0;
  esp = 0;
  cs = 0;
  ss = 0;
  eflags = 0;
  last_syscall_eax = 0;
  last_syscall_cs = 0;
  syscall_count = 0;
  fault_vector = 0;
  fault_eip = 0;
  fault_address = 0;
  fault_error = 0;
}

-- `process_t`; a name that is NULL in a slot never used is the empty string here.
pub record Process : Type 0 where
  pub pid : ℕ
  pub parent_pid : ℕ
  pub task_id : ℕ
  pub user_context : UserContext
  pub name : List ℕ
  pub state : ProcessState
  pub used : Bool
  pub kernel : Bool

abbrev pub empty_slot : Process
empty_slot = record {
  pid = 0;
  parent_pid = 0;
  task_id = 0;
  user_context = zero_context;
  name = [];
  state = unused;
  used = false;
  kernel = false;
}

-- The static variables of process.c.
pub record Table : Type 0 where
  pub processes : List Process
  pub next_pid : ℕ
  pub live_count : ℕ

abbrev pub is_user_named : List ℕ → Process → Bool
is_user_named n s = s.used && not s.kernel && same_name s.name n

abbrev pub is_free : Process → Bool
is_free s = not s.used

abbrev pub is_ready_user : Process → Bool
is_ready_user s = s.used && not s.kernel && is_ready s.state

-- `process_find_user`: the slot's index.
unfoldable pub process_find_user : List ℕ → Table → Option ℕ
process_find_user n t = find_index (is_user_named n) t.processes

-- `process_alloc`
unfoldable pub process_alloc : Table → Option ℕ
process_alloc t = find_index is_free t.processes

-- `process_init`
unfoldable pub process_init : Table
process_init = record { processes = replicate process_max empty_slot; next_pid = 1; live_count = 0 }

-- A process written to slot `i`, with the counters as they are after a new process.
abbrev pub add_process : ℕ → Process → Table → Table
add_process i s t = record {
  processes = set t.processes i s;
  next_pid = (t.next_pid + 1) % 2 ^ 32;
  live_count = (t.live_count + 1) % 2 ^ 32;
}

-- `process_create_kernel`: the pid (`none` for -1) and the table.
unfoldable pub process_create_kernel : Option (List ℕ) → ℕ → ℕ → Table → Option ℕ × Table
process_create_kernel none task parent t = (none, t)
process_create_kernel (some n) task parent t = elim (process_alloc t) [
  | none ↦ (none, t)
  | some i ↦ (
    some t.next_pid,
    add_process i
        (record {
          pid = t.next_pid;
          parent_pid = parent;
          task_id = task;
          user_context = zero_context;
          name = n;
          state = ready;
          used = true;
          kernel = true;
        })
        t,
  )
]

-- The branch of `process_record_user` for a name that is not in the table.
unfoldable pub record_new : List ℕ → UserContext → ProcessState → Table → Option ℕ × Table
record_new n c st t = elim (process_alloc t) [
  | none ↦ (none, t)
  | some i ↦ (
    some t.next_pid,
    add_process i
        (record {
          pid = t.next_pid;
          parent_pid = 0;
          task_id = process_no_task;
          user_context = c;
          name = n;
          state = st;
          used = true;
          kernel = false;
        })
        t,
  )
]

-- `process_record_user`
unfoldable pub process_record_user :
    Option (List ℕ) → Option UserContext → ProcessState → Table → Option ℕ × Table
process_record_user none c st t = (none, t)
process_record_user (some n) none st t = (none, t)
process_record_user (some n) (some c) st t = elim (process_find_user n t) [
  | none ↦ record_new n c st t
  | some i ↦
      let old = get_or t.processes i empty_slot in
      (
        some old.pid,
        record t { processes = set t.processes i (record old { user_context = c; state = st }) },
      )
]

-- `process_get_user_context`
unfoldable pub process_get_user_context : Option (List ℕ) → Table → Option UserContext
process_get_user_context none t = none
process_get_user_context (some n) t = elim (process_find_user n t) [
  | none ↦ none
  | some i ↦ some (get_or t.processes i empty_slot).user_context
]

-- `process_get_ready_user`
unfoldable pub process_get_ready_user : Table → Option (List ℕ × ℕ × UserContext)
process_get_ready_user t = elim (find_index is_ready_user t.processes) [
  | none ↦ none
  | some i ↦ let s = get_or t.processes i empty_slot in some (s.name, s.pid, s.user_context)
]

abbrev keep_used : List Process → List Process
keep_used [] = []
keep_used (s ∷ ss) = if s.used then s ∷ keep_used ss else keep_used ss

-- `process_list`: the processes that the callback gets, in order.
unfoldable pub process_list : Table → List Process
process_list t = keep_used t.processes
