-- ===== src/Kernel/Scheduler/Timer.antt =====
-- kernel/scheduler.c: the timer interrupt, which may switch between tasks and the main loop.
use minerva_os.Base.{
  ℕ, zero, suc, ◌+◌, ◌*◌, ◌%◌, ◌^◌, Bool, true, false, not, ◌&&◌, ◌||◌, if◌then◌else◌, List, Option,
  none, some, get_or, set, ◌==◌, leb, bit_or,
}
use minerva_os.Kernel.Scheduler.{Sched, Task, empty_task, inc}
use minerva_os.Kernel.Scheduler.Tasks.{task_at, is_set}

-- `tasks[i].context.irq_esp = v`
abbrev pub set_irq_esp : ℕ → ℕ → List Task → List Task
set_irq_esp i v ts =
    let t = get_or ts i empty_task in
    set ts i (record t { context = record t.context { irq_esp = v } })

abbrev pub same_index : Option ℕ → ℕ → Bool
same_index none i = false
same_index (some j) i = j == i

-- `next++; if (next >= (int)task_count) next = 0;` from -1 or an index.
unfoldable pub step_index : ℕ → Option ℕ → ℕ
step_index count none = 0
step_index count (some i) = if leb count (i + 1) then 0 else i + 1

-- `tasks[i].active && tasks[i].context.irq_esp`
abbrev pub can_resume : Sched → ℕ → Bool
can_resume s i = (task_at s i).active && not ((task_at s i).context.irq_esp == 0)

-- The loop of `scheduler_next_active_irq_task`, `n` rounds before its end.
unfoldable pub next_loop : Sched → ℕ → Option ℕ → Option ℕ
next_loop s zero next = none
next_loop s (suc n) next =
    let i = step_index s.task_count next in
    let later = next_loop s n (some i) in
    if not (same_index s.current_task i) && can_resume s i then some i else later

-- `scheduler_next_active_irq_task`
unfoldable pub scheduler_next_active_irq_task : Sched → Option ℕ
scheduler_next_active_irq_task s =
    if s.task_count == 0 then none else next_loop s s.task_count s.current_task

-- `scheduler_tick`
unfoldable pub scheduler_tick : Sched → Sched
scheduler_tick s =
    let t = s.ticks_in_quantum + 1 in
    if s.task_count == 0
    then s
    else if leb 10 t
    then record s {
      ticks_in_quantum = 0;
      switch_pending = true;
      irq_candidate_ready = true;
      timer_request_count = inc s.timer_request_count;
    }
    else record s { ticks_in_quantum = t }

-- `scheduler_note_interrupt_frame`, of a frame with this vector and EIP.
unfoldable pub scheduler_note_interrupt_frame : ℕ → ℕ → ℕ → Sched → Sched
scheduler_note_interrupt_frame frame int_no eip s =
    if frame == 0 || not (int_no == 32)
    then s
    else record s { irq_frame_count = inc s.irq_frame_count; last_irq_eip = eip }

-- The end of `scheduler_on_timer_interrupt` in the main loop: its frame is kept, `next` runs.
unfoldable pub switch_from_main : ℕ → ℕ → ℕ → Sched → ℕ × Sched
switch_from_main frame main next s =
    let tasks = set_irq_esp main frame s.tasks in
    (
      (get_or tasks next empty_task).context.irq_esp,
      record s {
        sched_debug_marker = bit_or 0x11110000 next;
        tasks = tasks;
        main_paused_via_irq = true;
        switch_pending = false;
        current_task = some next;
        in_task = true;
        switch_count = inc s.switch_count;
        irq_preempt_switch_count = inc s.irq_preempt_switch_count;
        main_to_task_count = inc s.main_to_task_count;
      },
    )

-- A frame of the main loop that is noted.
unfoldable pub capture_main : ℕ → Sched → Sched
capture_main frame s =
    if is_set s.main_task_id
    then record s { main_captured_esp = frame; main_capture_count = inc s.main_capture_count }
    else s

abbrev blocked : Sched → ℕ × Sched
blocked s = (0, record s { irq_preempt_blocked_count = inc s.irq_preempt_blocked_count })

-- The branch `if (!in_task)`.
unfoldable pub timer_in_main : ℕ → ℕ → Sched → ℕ × Sched
timer_in_main frame next s = elim s.main_task_id [
  | none ↦ blocked (capture_main frame s)
  | some main ↦
      if not s.main_switch_enabled
      then blocked (capture_main frame s)
      else switch_from_main frame main next (capture_main frame s)
]

-- The end of `scheduler_on_timer_interrupt` in the task `cur`.
unfoldable pub switch_from_task : ℕ → ℕ → ℕ → Sched → ℕ × Sched
switch_from_task frame cur next s =
    let saved = set_irq_esp cur frame s.tasks in
    let resume_esp = (get_or saved next empty_task).context.irq_esp in
    let switched = record s {
      switch_pending = false;
      current_task = some next;
      switch_count = inc s.switch_count;
      irq_preempt_switch_count = inc s.irq_preempt_switch_count;
    } in
    if same_index s.main_task_id next
    then (
      resume_esp,
      record switched {
        sched_debug_marker = bit_or 0x22220000 cur;
        tasks = set_irq_esp next 0 saved;
        main_paused_via_irq = false;
        in_task = false;
        irq_to_main_count = inc s.irq_to_main_count;
      },
    )
    else (
      resume_esp,
      record switched {
        sched_debug_marker = bit_or (bit_or 0x33330000 ((cur * 2 ^ 8) % 2 ^ 32)) next;
        tasks = saved;
      },
    )

-- The rest of `scheduler_on_timer_interrupt` with `in_task` set.
unfoldable pub timer_in_task : ℕ → ℕ → Sched → ℕ × Sched
timer_in_task frame next s = elim s.current_task [
  | none ↦ blocked s
  | some cur ↦ if (task_at s cur).active then switch_from_task frame cur next s else blocked s
]

-- `scheduler_on_timer_interrupt` once a candidate is found.
unfoldable pub timer_candidate : ℕ → ℕ → Sched → ℕ × Sched
timer_candidate frame next s0 =
    let s = record s0 {
      irq_candidate_ready = false;
      irq_candidate_count = inc s0.irq_candidate_count;
    } in
    if not s.preemptive_enabled
    then (0, s)
    else if not s.in_task
    then timer_in_main frame next s
    else timer_in_task frame next s

-- `scheduler_on_timer_interrupt`: the stack pointer to resume (0 for none), and the scheduler.
unfoldable pub scheduler_on_timer_interrupt : ℕ → ℕ → ℕ → Sched → ℕ × Sched
scheduler_on_timer_interrupt frame int_no eip s0 =
    let s = scheduler_note_interrupt_frame frame int_no eip s0 in
    if not s.switch_pending || not s.irq_candidate_ready || s.task_count == 0
    then (0, s)
    else elim (scheduler_next_active_irq_task s) [
      | none ↦ (0, s)
      | some next ↦ timer_candidate frame next s
    ]
