-- ===== src/Kernel/Scheduler/Laws/Reach.antt =====
-- kernel/scheduler.c: the scheduler as a system of steps, and the invariant along them.
use minerva_os.Base.{ℕ, ◌≡◌, ◌≢◌, false, some}
use minerva_os.Kernel.Scheduler.{Sched, Layout, scheduler_init}
use minerva_os.Kernel.Scheduler.Tasks.{
  scheduler_create_kernel_task, scheduler_register_main_task, scheduler_set_preemptive_enabled,
  scheduler_set_main_switch_enabled,
}
use minerva_os.Kernel.Scheduler.Timer.{scheduler_tick, scheduler_on_timer_interrupt}
use minerva_os.Kernel.Scheduler.Switch.{
  scheduler_poll, after_yield, after_poll, trampoline_run, scheduler_yield,
}
use minerva_os.Kernel.Scheduler.Inv.{Inv}
use minerva_os.Kernel.Scheduler.Laws.{scheduler_init-Inv, create-Inv, register-Inv}
use minerva_os.Kernel.Scheduler.Laws.Ticks.{tick-Inv}
use minerva_os.Kernel.Scheduler.Laws.Coop.{poll-Inv, after_poll-Inv, yield-Inv, trampoline-Inv}
use minerva_os.Kernel.Scheduler.Laws.Interrupt.{timer-Inv}

-- What can happen to the scheduler while no interrupt comes inside `scheduler_poll`, which runs with
-- interrupts on: its writes, up to the change of stacks, are one step here. At any other time an
-- interrupt may come, with the address of its frame. `scheduler_poll` is called by the main loop alone,
-- once that is registered.
pub data QuietStep (l : Layout) : Sched → Sched → Type 0 where
  create :
      (name entry ctx : ℕ) {s : Sched}
      → QuietStep l s (scheduler_create_kernel_task l name entry ctx s).1
  register : (name : ℕ) {s : Sched} → QuietStep l s (scheduler_register_main_task l name s).1
  set_preemptive : (e : ℕ) {s : Sched} → QuietStep l s (scheduler_set_preemptive_enabled e s)
  set_main_switch : (e : ℕ) {s : Sched} → QuietStep l s (scheduler_set_main_switch_enabled e s)
  tick : {s : Sched} → QuietStep l s (scheduler_tick s)
  timer :
      (frame int_no eip : ℕ) {s : Sched}
      → frame ≢ 0
      → QuietStep l s (scheduler_on_timer_interrupt frame int_no eip s).1
  poll :
      (esp main : ℕ) {s : Sched}
      → s.in_task ≡ false
      → s.main_task_id ≡ some main
      → QuietStep l s (after_poll esp (scheduler_poll s))
  yield : (esp : ℕ) {s : Sched} → QuietStep l s (after_yield esp (scheduler_yield s))
  run : {s : Sched} → QuietStep l s (trampoline_run s)

pub data QuietReach (l : Layout) : Sched → Type 0 where
  start : (marker : ℕ) → QuietReach l (scheduler_init marker)
  next : {s t : Sched} → QuietReach l s → QuietStep l s t → QuietReach l t

pub Step-Inv : {l : Layout} {s t : Sched} → QuietStep l s t → Inv s → Inv t
unfolding scheduler_set_preemptive_enabled scheduler_set_main_switch_enabled
Step-Inv {l} (create name entry ctx {s}) v = create-Inv l name entry ctx s v
Step-Inv {l} (register name {s}) v = register-Inv l name s v
Step-Inv (set_preemptive e) v = v
Step-Inv (set_main_switch e) v = v
Step-Inv (tick {s}) v = tick-Inv s v
Step-Inv (timer frame int_no eip {s} f) v = timer-Inv frame int_no eip s f v
Step-Inv (poll esp main {s} t m) v = after_poll-Inv esp (scheduler_poll s) (poll-Inv s t v)
Step-Inv (yield esp {s}) v = yield-Inv esp s v
Step-Inv (run {s}) v = trampoline-Inv s v

pub Reach-Inv : {l : Layout} {s : Sched} → QuietReach l s → Inv s
Reach-Inv (start marker) = scheduler_init-Inv marker
Reach-Inv (next r st) = Step-Inv st (Reach-Inv r)
