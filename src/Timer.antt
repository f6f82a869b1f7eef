-- ===== src/Timer.antt =====
-- drivers/timer.c, and TaskSleep and SysSleep of kernel/sleep_wakeup.c: timers by address, and the
-- list of those that are updated on each tick. The one function that timers call is `TaskTimeout`,
-- whose argument is a task.
pub mod Updates
pub mod Sleeping
mod Tests
use xbook.Prelude.{
  ℕ, ◌+◌, ◌-◌, ◌*◌, ◌/◌, ◌%◌, ◌^◌, Bool, true, false, Option, none, some, List, [], ◌∷◌, ◌++◌, ◌==◌,
  if◌then◌else◌,
}
use xbook.Task.{Task, blocked, write_at, mem, remove}
use xbook.Alarm.{hz}
use xbook.Scheduler.{Scheduler, set_status, wake_up, schedule}

pub data TimerState : Type 0 where
  idle running stop invalid : TimerState

-- `struct Timer`; its function is `TaskTimeout`, and `data` the pid of the task
pub record Timer : Type 0 where
  pub expires : ℕ
  pub task : ℕ
  pub state : TimerState

pub record Timers : Type 0 where
  pub timer : ℕ → Timer
  pub timer_list : List ℕ
  pub scheduler : Scheduler

abbrev pub is_running : TimerState → Bool
is_running running = true
is_running _ = false

abbrev pub put_timer : ℕ → Timer → Timers → Timers
put_timer a t s = record s { timer = write_at s.timer a t }

abbrev pub assert : Bool → Timers → Timers
assert b s = if b then s else record s { scheduler = record (s.scheduler) { panicked = true } }

unfoldable pub timer_init : ℕ → ℕ → ℕ → Timers → Timers
timer_init a expires task s =
    put_timer a (record { expires = expires; task = task; state = idle }) s

unfoldable pub add_timer : ℕ → Timers → Timers
add_timer a s = if mem a s.timer_list then assert false s else record s {
  timer = write_at s.timer a (record (s.timer a) { state = running });
  timer_list = s.timer_list ++ a ∷ [];
}

unfoldable pub remove_timer : ℕ → Timers → Timers
remove_timer a s =
    if mem a s.timer_list then record s { timer_list = remove a s.timer_list } else assert false s

unfoldable pub stop_timer : ℕ → Timers → Timers
stop_timer a s = put_timer a (record (s.timer a) { state = stop }) s

unfoldable pub resume_timer : ℕ → Timers → Timers
resume_timer a s = put_timer a (record (s.timer a) { state = running }) s

-- `DoTimerHandler`, with `TaskTimeout`
unfoldable pub do_timer_handler : ℕ → Timers → Timers
do_timer_handler a s =
    let s' = remove_timer a s in record s' { scheduler = wake_up (s.timer a).task s'.scheduler }

-- `TimerUpdate`; `expires` has 64 bits.
unfoldable pub timer_update : ℕ → Timers → Timers
timer_update a s =
    let expires' = ((s.timer a).expires + 2 ^ 64 - 1) % 2 ^ 64 in
    let s' = put_timer a (record (s.timer a) { expires = expires' }) s in
    if is_running (s.timer a).state then if expires' == 0 then do_timer_handler a s' else s' else s

-- `UpdateTimerSystem`: an update removes at most the timer itself, and the loop has read the next.
unfoldable pub update_each : List ℕ → Timers → Timers
update_each [] s = s
update_each (a ∷ list) s = update_each list (timer_update a s)

unfoldable pub update_timer_system : Timers → Timers
update_timer_system s = update_each s.timer_list s

-- `TaskSleep` up to the switch to another task, with its timer at the address `a`
unfoldable pub task_sleep : ℕ → ℕ → Timers → Timers
task_sleep a ticks s =
    let current = s.scheduler.current in
    let s' = add_timer a (timer_init a ticks current s) in
    let sleeping = record (s.scheduler.task current) { sleep_timer = some a } in
    let marked = record (s'.scheduler) { task = write_at s'.scheduler.task current sleeping } in
    record s' { scheduler = schedule (set_status current blocked marked) }

-- And from where the task runs again, which is the ticks that were left
unfoldable pub task_sleep_return : ℕ → Timers → ℕ × Timers
task_sleep_return a s =
    let current = s.scheduler.current in
    let awake = record (s.scheduler.task current) { sleep_timer = none } in
    (
      (s.timer a).expires % 2 ^ 32,
      record s {
        scheduler = record (s.scheduler) { task = write_at s.scheduler.task current awake };
      },
    )

-- `SysSleep`: which of `TaskSleep` it passes, and what it makes of its result
unfoldable pub sleep_ticks : ℕ → ℕ
sleep_ticks second = second * hz % 2 ^ 32

unfoldable pub sleep_seconds : ℕ → ℕ
sleep_seconds ticks = ticks / hz
