-- ===== src/Kernel/Scheduler/Switch.antt =====
-- kernel/scheduler.c: the cooperative switches. The assembly that swaps stacks is a transfer of
-- control: here a function answers where control goes, and a second one what follows on its return.
use minerva_os.Base.{
  ℕ, zero, suc, true, false, not, ◌&&◌, ◌||◌, if◌then◌else◌, List, Option, none, some, get_or, set,
  ◌==◌, bit_or,
}
use minerva_os.Kernel.Scheduler.{Sched, Task, empty_task, zero_frame, inc}
use minerva_os.Kernel.Scheduler.Tasks.{task_at}
use minerva_os.Kernel.Scheduler.Timer.{step_index, set_irq_esp}

-- The loop of `scheduler_poll`, `n` rounds before its end.
unfoldable pub poll_loop : Sched → ℕ → Option ℕ → Option ℕ
poll_loop s zero next = none
poll_loop s (suc n) next =
    let i = step_index s.task_count next in
    let later = poll_loop s n (some i) in
    if (task_at s i).active && not ((task_at s i).entry == 0) then some i else later

-- `scheduler_poll` up to `scheduler_context_switch`: the stack it switches to, if it does. These are all
-- its writes in one piece: the code runs with interrupts on, and one that comes between the writes of
-- `current_task` and `in_task` finds values that this function never leaves.
unfoldable pub scheduler_poll : Sched → Option ℕ × Sched
scheduler_poll s0 =
    let s = record s0 { switch_pending = false } in
    if not s0.switch_pending || s0.task_count == 0
    then (none, s0)
    else elim (poll_loop s s.task_count s.current_task) [
      | none ↦ (none, s)
      | some next ↦ (
        some (task_at s next).context.esp,
        record s { current_task = some next; switch_count = inc s.switch_count; in_task = true },
      )
    ]

-- `scheduler_poll` once control is back in the main loop.
unfoldable pub poll_return : Sched → Sched
poll_return s = record s { in_task = false }

-- Where `scheduler_yield` goes: it returns, it resumes the main loop at the end of an interrupt, or
-- it switches to the stack of `scheduler_poll`.
pub data Yield : Type 0 where
  stay : Yield
  iret_to_main : (old_task resume_irq_esp main_iret_esp : ℕ) → Yield
  switch_to_main : (old_task resume_irq_esp main_esp : ℕ) → Yield

-- The branch that returns to a main loop that an interrupt paused.
unfoldable pub yield_iret : ℕ → ℕ → Sched → Yield × Sched
yield_iret old main s =
    let resume = (task_at s old).context.resume_irq_esp in
    (
      iret_to_main old resume (task_at s main).context.irq_esp,
      record s {
        sched_debug_marker = bit_or 0x44440000 old;
        tasks = set_irq_esp main 0 (set_irq_esp old resume s.tasks);
        main_paused_via_irq = false;
        current_task = some main;
        in_task = false;
        yield_to_main_count = inc s.yield_to_main_count;
      },
    )

-- `scheduler_yield` of the task `old`.
unfoldable pub yield_from : ℕ → Sched → Yield × Sched
yield_from old s = elim s.main_task_id [
  | none ↦ (stay, s)
  | some main ↦
      if s.main_paused_via_irq && not ((task_at s main).context.irq_esp == 0)
      then yield_iret old main s
      else (
        switch_to_main old (task_at s old).context.resume_irq_esp (task_at s main).context.esp,
        s,
      )
]

-- `scheduler_yield`
unfoldable pub scheduler_yield : Sched → Yield × Sched
scheduler_yield s = elim s.current_task [
  | none ↦ (stay, s)
  | some old ↦ if not s.in_task then (stay, s) else yield_from old s
]

-- `scheduler_context_switch*` of switch.asm: the word stored through `old_esp`.
unfoldable pub save_esp : ℕ → ℕ → List Task → List Task
save_esp i esp ts =
    let t = get_or ts i empty_task in
    set ts i (record t { context = record t.context { esp = esp } })

-- `scheduler_context_switch_update_irq` and its `iret` form: the stack pointer of the task `old` is
-- kept in its context and, unless `resume_irq_esp` is 0, in the EAX of its resume frame.
unfoldable pub switch_update_irq : ℕ → ℕ → ℕ → Sched → Sched
switch_update_irq old resume_irq_esp esp s =
    let f = get_or s.irq_frames old zero_frame in
    let frames =
      if resume_irq_esp == 0 then s.irq_frames else set s.irq_frames old (record f { eax = esp }) in
    record s { tasks = save_esp old esp s.tasks; irq_frames = frames }

-- The scheduler once `scheduler_yield` has left the task, whose stack pointer was `esp`. A switch to
-- the main loop's own stack goes on behind the call in `scheduler_poll`.
unfoldable pub after_yield : ℕ → Yield × Sched → Sched
after_yield esp (stay, s) = s
after_yield esp (iret_to_main old resume main, s) = switch_update_irq old resume esp s
after_yield esp (switch_to_main old resume main, s) =
    poll_return (switch_update_irq old resume esp s)

-- The scheduler once `scheduler_poll` has left the main loop, whose stack pointer was `esp`.
unfoldable pub after_poll : ℕ → Option ℕ × Sched → Sched
after_poll esp (none, s) = s
after_poll esp (some target, s) = elim s.main_task_id [
  | none ↦ s
  | some main ↦ record s { tasks = save_esp main esp s.tasks }
]

-- `scheduler_task_trampoline`, one round of its loop up to the call of the task's entry.
unfoldable pub trampoline_run : Sched → Sched
trampoline_run s = elim s.current_task [
  | none ↦ s
  | some cur ↦
      let t = task_at s cur in
      if t.active && not (t.entry == 0)
      then record s {
        tasks = set s.tasks cur (record t { runs = inc t.runs });
        sched_debug_marker = bit_or 0x66660000 cur;
      }
      else s
]
