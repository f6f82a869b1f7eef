-- ===== src/Signal.antt =====
-- kernel/signal.c: sending a signal to a task. Locks are left out: each function here runs with
-- interrupts off or under the task's own spin lock.
pub mod Wellformed
pub mod Delivery
pub mod Masks
pub mod Actions
pub mod Handling
pub mod Groups
mod Tests
use xbook.Prelude.{
  ℕ, ◌-◌, ◌^◌, ◌≤◌, ◌<◌, Bool, true, false, not, ◌&&◌, ◌||◌, Option, none, some, ltb, leb, ◌==◌,
  if◌then◌else◌,
}
use xbook.SigSet.{
  SigSet, sigkill, sigchld, sigcont, sigstop, sigtstp, sigttin, sigttou, sigurg, sigwinch,
  is_bad_signal, sigaddset, sigdelset, sigismember,
}
use xbook.Task.{
  Status, ready, running, blocked, waiting, stopped, zombie, died, Action, Task, Target, write_at,
  is_blocked, is_stopped, task_wake_up, cancel_timer,
}

abbrev pub sig_dfl : ℕ
sig_dfl = 0

abbrev pub sig_ign : ℕ
sig_ign = 1

-- `CalcSignalLeft`
unfoldable pub calc_signal_left : Task → Task
calc_signal_left task = record task {
  signal_left = not (task.signal_pending == 1 || task.signal_pending == 0);
}

-- `DelSignalFromTask`: the set, and whether the signal was in it.
unfoldable pub del_signal_from_task : ℕ → SigSet → SigSet × Bool
del_signal_from_task signo set =
    if sigismember set signo then (sigdelset set signo, true) else (set, false)

abbrev unblock_signal : ℕ → Task → Task
unblock_signal signo task = record task {
  signal_blocked = (del_signal_from_task signo task.signal_blocked).0;
}

abbrev pub is_stop_signal : ℕ → Bool
is_stop_signal signo =
    signo == sigstop || (signo == sigtstp || (signo == sigttou || signo == sigttin))

-- `HandleStopSignal`
unfoldable pub handle_stop_signal : ℕ → Target → Target
handle_stop_signal signo s =
    let woken = if is_stopped s.task.status then task_wake_up s else s in
    if signo == sigkill || signo == sigcont
    then record woken {
      task = unblock_signal sigttin (
          unblock_signal sigttou (
            unblock_signal sigtstp
              (unblock_signal sigstop (record (woken.task) { exit_status = 0 }))));
    }
    else if is_stop_signal signo
    then record s { task = unblock_signal sigcont s.task }
    else s

-- `IgnoreSignal`
unfoldable pub ignore_signal : ℕ → Task → Bool
ignore_signal signo task =
    let handler = (task.action (signo - 1)).handler in
    if sigismember task.signal_blocked signo
    then false
    else if ltb 1 handler
    then false
    else if handler == 1
    then not (signo == sigchld)
    else signo == sigcont || (signo == sigwinch || (signo == sigchld || signo == sigurg))

-- A blocked task that sleeps on a timer is woken without it.
unfoldable pub stop_sleeping : Target → Target
stop_sleeping s = elim (s.task.sleep_timer) [
  | none ↦ s
  | some timer ↦
      let s' = cancel_timer s timer in record s' { task = record (s'.task) { sleep_timer = none } }
]

-- `DeliverSignal`: the result, false for -1, and the new state.
unfoldable pub deliver_signal : ℕ → ℕ → Target → Bool × Target
deliver_signal signo sender s =
    let marked = record s {
      task = record (s.task) {
        sender = write_at s.task.sender (signo - 1) sender;
        signal_pending = sigaddset s.task.signal_pending signo;
      };
    } in
    let left = record marked { task = record (marked.task) { signal_left = true } } in
    if leb (2 ^ 31) sender
    then (false, s)
    else if not (sigismember s.task.signal_blocked signo)
    then (true, if is_blocked s.task.status then task_wake_up (stop_sleeping left) else left)
    else (true, marked)

-- The end of `DoSendSignal`: a task that is still blocked is woken if it has pending signals.
unfoldable pub wake_pending : ℕ → Target → Target
wake_pending signo s =
    let woken = if not (sigismember s.task.signal_blocked signo) then task_wake_up s else s in
    if is_blocked s.task.status && not (s.task.signal_pending == 1)
    then record woken { task = calc_signal_left woken.task }
    else s

-- `DoSendSignal` once the task has been found.
unfoldable pub send_to : ℕ → ℕ → Target → Bool × Target
send_to signo sender s =
    let s' = handle_stop_signal signo s in
    let (ok, t) = deliver_signal signo sender s' in
    if is_bad_signal signo
    then (false, s)
    else if ignore_signal signo s'.task
    then (true, wake_pending signo s')
    else if sigismember s'.task.signal_pending signo
    then (true, wake_pending signo s')
    else (ok, wake_pending signo t)

-- `ForceSignal` once the task has been found.
unfoldable pub force_to : ℕ → ℕ → Target → Bool × Target
force_to signo sender s =
    let old = s.task.action (signo - 1) in
    let act = if old.handler == sig_ign then record old { handler = sig_dfl } else old in
    send_to signo sender (record s {
      task = calc_signal_left (record (s.task) {
        action = write_at s.task.action (signo - 1) act;
        signal_blocked = sigdelset s.task.signal_blocked signo;
      });
    })
