-- ===== src/Signal/Actions.antt =====
-- `SysSignal` and `SysSignalAction` of kernel/signal.c: the disposition of a signal.
use Prim.Native.Nat.{bit_or}
use xbook.Prelude.{
  ℕ, ◌-◌, ◌≡◌, ◌≢◌, ap, Bool, true, false, not, ◌&&◌, ◌||◌, Option, none, some, ◌==◌, if◌then◌else◌,
  arith,
}
use xbook.SigSet.{sigkill, sigstop, sigcont, sigchld, sigwinch, is_bad_signal, sigismember}
use xbook.SigSet.Laws.{sigismember-sigdelset}
use xbook.Task.{Action, Task, write_at}
use xbook.Signal.{sig_dfl, sig_ign, calc_signal_left, del_signal_from_task}

-- `SetSignalAction` and `GetSignalAction`
unfoldable pub set_signal_action : Task → ℕ → Action → Task
set_signal_action task signo sa = record task { action = write_at task.action (signo - 1) sa }

unfoldable pub get_signal_action : Task → ℕ → Action
get_signal_action task signo = task.action (signo - 1)

-- Is a pending instance of the signal dropped with this disposition?
abbrev pub is_dropping : ℕ → ℕ → Bool
is_dropping handler signal =
    handler == sig_ign
    || (handler == sig_dfl && (signal == sigcont || (signal == sigchld || signal == sigwinch)))

abbrev drop_pending : ℕ → Task → Task
drop_pending signal task =
    let (set, was) = del_signal_from_task signal task.signal_pending in
    if was then calc_signal_left (record task { signal_pending = set }) else task

abbrev install : ℕ → Action → Task → Task
install signal sa task =
    let task' = set_signal_action task signal sa in
    if is_dropping sa.handler signal then drop_pending signal task' else task'

-- `SysSignal`; `junk` is what the uninitialised `sa.flags` holds. The result is false for -1.
unfoldable pub sys_signal : (junk : ℕ) → ℕ → ℕ → Task → Bool × Task
sys_signal junk signal handler task =
    if is_bad_signal signal || (not (handler == 0) && (signal == sigkill || signal == sigstop))
    then (false, task)
    else if handler == 0
    then (true, task)
    else (true, install signal (record { handler = handler; flags = bit_or junk 1 }) task)

-- `SysSignalAction`: the result, the old disposition and the task; a NULL `act` is `none`.
unfoldable pub sys_signal_action : ℕ → Option Action → Task → Bool × Option Action × Task
sys_signal_action signal act task =
    if is_bad_signal signal
      || (elim act [ none ↦ false | some _ ↦ signal == sigkill || signal == sigstop ])
    then (false, none, task)
    else (
      true,
      some (get_signal_action task signal),
      elim act [ none ↦ task | some sa ↦ install signal sa task ],
    )

-- The dispositions of SIGKILL and SIGSTOP stay as they are, whatever a process asks for.
pub fatal_dispositions :
    (signal junk handler : ℕ) (act : Option Action) (task : Task)
    → ((sys_signal junk signal handler task).1.action 8 ≡ task.action 8)
      × ((sys_signal junk signal handler task).1.action 18 ≡ task.action 18)
      × ((sys_signal_action signal act task).2.action 8 ≡ task.action 8)
      × ((sys_signal_action signal act task).2.action 18 ≡ task.action 18)
unfolding sys_signal sys_signal_action set_signal_action calc_signal_left
fatal_dispositions signal junk handler act task =
    (ground arith, ground arith, ground arith, ground arith)

-- A disposition that is set reads back, the old one is handed out, no other one changes, and an
-- ignored signal that was pending is dropped.
pub sys_signal_action_lem :
    (signal other : ℕ) (sa : Action) (task : Task)
    → is_bad_signal signal ≡ false
    → signal ≢ sigkill
    → signal ≢ sigstop
    → is_bad_signal other ≡ false
    → let (ok, old, task') = sys_signal_action signal (some sa) task in
      (ok ≡ true)
      × (old ≡ some (get_signal_action task signal))
      × (get_signal_action task' other
          ≡ (if other == signal then sa else get_signal_action task other))
      × (sigismember task'.signal_pending other ≡ (
          not (other == signal && is_dropping sa.handler signal)
          && sigismember task.signal_pending other))
unfolding sys_signal_action set_signal_action get_signal_action calc_signal_left
    del_signal_from_task
sys_signal_action_lem signal other sa task valid nk ns valid' = (
  ground arith,
  ground arith,
  ground arith,
  ground (
    arith,
    sigismember-sigdelset task.signal_pending signal other,
    λ (e : other ≡ signal). ap (sigismember task.signal_pending) e,
  ),
)
