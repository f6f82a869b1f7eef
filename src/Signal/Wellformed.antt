-- ===== src/Signal/Wellformed.antt =====
-- Every step of sending a signal keeps the ready queue in agreement with the status of the task.
use xbook.Prelude.{ℕ, ◌-◌, true, arith}
use xbook.SigSet.{sigaddset}
use xbook.Task.{Target, write_at, cancel_timer}
use xbook.Task.Wake.{IsQueued, task_wake_up_lem}
use xbook.Signal.{
  handle_stop_signal, stop_sleeping, deliver_signal, wake_pending, calc_signal_left, send_to,
  force_to,
}

pub handle_stop_signal-IsQueued :
    (signo : ℕ) (s : Target) → IsQueued s → IsQueued (handle_stop_signal signo s)
unfolding handle_stop_signal
handle_stop_signal-IsQueued signo s q = ground (arith, (task_wake_up_lem s q).0)

stop_sleeping-IsQueued : (s : Target) → IsQueued s → IsQueued (stop_sleeping s)
unfolding stop_sleeping cancel_timer
stop_sleeping-IsQueued s q = ground arith

wake_pending-IsQueued : (signo : ℕ) (s : Target) → IsQueued s → IsQueued (wake_pending signo s)
unfolding wake_pending calc_signal_left
wake_pending-IsQueued signo s q = ground (arith, (task_wake_up_lem s q).0)

pub deliver_signal-IsQueued :
    (signo sender : ℕ) (s : Target) → IsQueued s → IsQueued ((deliver_signal signo sender s).1)
unfolding deliver_signal
deliver_signal-IsQueued signo sender s q =
    let marked = record s {
      task = record (s.task) {
        sender = write_at s.task.sender (signo - 1) sender;
        signal_pending = sigaddset s.task.signal_pending signo;
        signal_left = true;
      };
    } in
    let q' : IsQueued marked = ground arith in
    let rested = stop_sleeping-IsQueued marked q' in
    ground (arith, rested, (task_wake_up_lem (stop_sleeping marked) rested).0)

-- Sending a signal keeps the ready queue in agreement with the status of the task, keeps its
-- sleep timer running if it still has one, and fails no assertion.
pub send_to-IsQueued :
    (signo sender : ℕ) (s : Target) → IsQueued s → IsQueued ((send_to signo sender s).1)
unfolding send_to
send_to-IsQueued signo sender s q =
    let s' = handle_stop_signal signo s in
    let q' = handle_stop_signal-IsQueued signo s q in
    let t = deliver_signal signo sender s' in
    ground (
      arith,
      wake_pending-IsQueued signo s' q',
      wake_pending-IsQueued signo (t.1) (deliver_signal-IsQueued signo sender s' q'),
    )

-- Forcing a signal on a task, which unblocks it and drops its being ignored, keeps the ready queue in
-- agreement with the status of the task and its sleep timer running, and fails no assertion.
pub force_to-IsQueued :
    (signo sender : ℕ) (s : Target) → IsQueued s → IsQueued ((force_to signo sender s).1)
unfolding force_to calc_signal_left
force_to-IsQueued signo sender s q = send_to-IsQueued signo sender _ (ground arith)
