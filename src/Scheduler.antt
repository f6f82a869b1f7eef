-- ===== src/Scheduler.antt =====
-- kernel/schedule.c, and what kernel/task.c, kernel/sleep_wakeup.c and drivers/clock.c do with it:
-- all tasks by pid, the ready queue and the task that runs. Switching the stacks and the address
-- space has no state here.
pub mod Queue
pub mod Invariant
pub mod Operations
pub mod Rounds
mod Tests
use xbook.Prelude.{
  ℕ, zero, suc, ◌+◌, ◌-◌, ◌^◌, ◌≤◌, Bool, true, false, not, ◌||◌, List, [], ◌∷◌, ◌++◌, leb, ◌==◌,
  if◌then◌else◌,
}
use xbook.Task.{
  Status, ready, running, blocked, waiting, stopped, zombie, died, Task, Target, mem, write_at,
  is_blocked, task_unblock, task_wake_up,
}

pub record Scheduler : Type 0 where
  pub task : ℕ → Task
  pub ready_list : List ℕ
  pub current : ℕ
  pub main_thread : ℕ
  pub panicked : Bool

abbrev pub is_running : Status → Bool
is_running running = true
is_running _ = false

abbrev pub set_status : ℕ → Status → Scheduler → Scheduler
set_status t status s = record s {
  task = write_at s.task t (record (s.task t) { status = status });
}

-- One task as `TaskUnblock` and `TaskWakeUp` see it
abbrev pub target : ℕ → Scheduler → Target
target t s = record {
  task = s.task t;
  ready_list = s.ready_list;
  timer_list = [];
  panicked = s.panicked;
}

abbrev pub put_target : ℕ → Target → Scheduler → Scheduler
put_target t w s = record s {
  task = write_at s.task t w.task;
  ready_list = w.ready_list;
  panicked = w.panicked;
}

unfoldable pub unblock : ℕ → Scheduler → Scheduler
unblock t s = put_target t (task_unblock (target t s)) s

unfoldable pub wake_up : ℕ → Scheduler → Scheduler
wake_up t s = put_target t (task_wake_up (target t s)) s

-- Step 1 of `Schedule`: a task that still runs goes to the end of the queue.
unfoldable pub requeue : Scheduler → Scheduler
requeue s =
    if is_running (s.task s.current).status
    then record s {
      task =
          write_at s.task s.current
            (record (s.task s.current) { status = ready; ticks = (s.task s.current).priority });
      ready_list = s.ready_list ++ (s.current ∷ []);
    }
    else s

abbrev pub wake_idle : List ℕ → Scheduler → Scheduler
wake_idle [] s = unblock s.main_thread s
wake_idle (_ ∷ _) s = s

-- Step 2: the first task of the queue runs.
abbrev pub switch_to : List ℕ → Scheduler → Scheduler
switch_to [] s = record s { panicked = true }
switch_to (t ∷ rest) s = record (set_status t running s) { ready_list = rest; current = t }

abbrev pub dispatch : Scheduler → Scheduler
dispatch s = switch_to s.ready_list s

unfoldable pub schedule : Scheduler → Scheduler
schedule s = dispatch (wake_idle (requeue s).ready_list (requeue s))

abbrev pub is_blocking : Status → Bool
is_blocking blocked = true
is_blocking waiting = true
is_blocking stopped = true
is_blocking zombie = true
is_blocking _ = false

unfoldable pub task_block : Status → Scheduler → Scheduler
task_block state s =
    if is_blocking state
    then schedule (set_status s.current state s)
    else record s { panicked = true }

unfoldable pub task_yield : Scheduler → Scheduler
task_yield s =
    if mem s.current s.ready_list
    then record s { panicked = true }
    else schedule
        (record (set_status s.current ready s) { ready_list = s.ready_list ++ (s.current ∷ []) })

-- `SchedSoftirqHandler`, on each tick; `ticks` is unsigned, so that `<= 0` is being 0.
unfoldable pub sched_softirq_handler : Scheduler → Scheduler
sched_softirq_handler s =
    let ticks = (s.task s.current).ticks in
    if ticks == 0 then schedule s else record s {
      task = write_at s.task s.current (record (s.task s.current) { ticks = ticks - 1 });
    }
