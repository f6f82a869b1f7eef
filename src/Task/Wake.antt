-- ===== src/Task/Wake.antt =====
-- The ready queue and the status of a task agree.
use xbook.Prelude.{◌≡◌, Bool, true, false, ◌||◌, none, some, ◌∷◌, if◌then◌else◌, arith}
use xbook.Task.{Status, ready, Target, mem, is_blocked, is_stopped, task_unblock, task_wake_up}

abbrev pub is_ready : Status → Bool
is_ready ready = true
is_ready _ = false

-- Is the sleep timer of the task, if it has one, in the timer list?
abbrev is_timed : Target → Bool
is_timed s = elim (s.task.sleep_timer) [ none ↦ true | some timer ↦ mem timer s.timer_list ]

-- The task is in the ready queue exactly if its status says so, its sleep timer is running, and no
-- assertion has failed.
pub record IsQueued (s : Target) : Type 0 where
  pub agrees : mem s.task.pid s.ready_list ≡ is_ready s.task.status
  pub timed : is_timed s ≡ true
  pub sound : s.panicked ≡ false

-- `TaskWakeUp` keeps the queue and the status in agreement and fails no assertion; a blocked or
-- stopped task becomes ready, at the front of the queue, and any other one is left alone.
pub task_wake_up_lem :
    (s : Target)
    → IsQueued s
    → IsQueued (task_wake_up s)
      × (task_wake_up s ≡ (
          if is_blocked s.task.status || is_stopped s.task.status
          then record s {
            task = record (s.task) { status = ready };
            ready_list = s.task.pid ∷ s.ready_list;
          }
          else s))
unfolding task_wake_up task_unblock
task_wake_up_lem s q = (ground arith, ground arith)
