-- ===== src/Task.antt =====
-- include/book/task.h, and the wake-up of a task in kernel/task.c and kernel/sleep_wakeup.c. Pids
-- and other `int`s are the bit patterns of 32-bit words.
pub mod Wake
use xbook.Prelude.{
  ℕ, ◌+◌, Bool, true, false, not, ◌||◌, Option, none, some, List, [], ◌∷◌, ◌==◌, if◌then◌else◌,
}
use xbook.SigSet.{SigSet}

-- `enum TaskStatus`
pub data Status : Type 0 where
  ready running blocked waiting stopped zombie died : Status

-- `struct SignalAction`
pub record Action : Type 0 where
  pub handler : ℕ
  pub flags : ℕ

-- The fields of `struct Task` that scheduling, signals and alarms use; `signals.action` and
-- `signals.sender` are the functions `action` and `sender` of the index.
pub record Task : Type 0 where
  pub pid : ℕ
  pub group_pid : ℕ
  pub status : Status
  pub exit_status : ℕ
  pub priority : ℕ
  pub ticks : ℕ
  pub signal_left : Bool
  pub signal_catched : Bool
  pub action : ℕ → Action
  pub sender : ℕ → ℕ
  pub signal_blocked : SigSet
  pub signal_pending : SigSet
  pub alarm : Bool
  pub alarm_ticks : ℕ
  pub alarm_seconds : ℕ
  pub sleep_timer : Option ℕ

-- One task among what it shares with the others: the ready queue, by pid, the timer list, and
-- whether an assertion or a `Panic` has stopped the kernel.
pub record Target : Type 0 where
  pub task : Task
  pub ready_list : List ℕ
  pub timer_list : List ℕ
  pub panicked : Bool

abbrev pub write_at : {A : Type 0} → (ℕ → A) → ℕ → A → ℕ → A
write_at f i v j = if i == j then v else f j

abbrev pub mem : ℕ → List ℕ → Bool
mem x [] = false
mem x (y ∷ ys) = (x == y) || mem x ys

abbrev pub remove : ℕ → List ℕ → List ℕ
remove x [] = []
remove x (y ∷ ys) = if x == y then ys else y ∷ remove x ys

abbrev pub is_blocked : Status → Bool
is_blocked blocked = true
is_blocked _ = false

abbrev pub is_stopped : Status → Bool
is_stopped stopped = true
is_stopped _ = false

abbrev pub is_waiting : Status → Bool
is_waiting waiting = true
is_waiting _ = false

-- `TaskUnblock`: the task goes to the front of the ready queue.
unfoldable pub task_unblock : Target → Target
task_unblock s =
    if not (is_blocked s.task.status || (is_waiting s.task.status || is_stopped s.task.status))
      || mem s.task.pid s.ready_list
    then record s { panicked = true }
    else record s {
      task = record (s.task) { status = ready };
      ready_list = s.task.pid ∷ s.ready_list;
    }

-- `TaskWakeUp`
unfoldable pub task_wake_up : Target → Target
task_wake_up s = if is_blocked s.task.status || is_stopped s.task.status then task_unblock s else s

-- `RemoveTimer`, which `CancelTimer` calls
abbrev remove_timer : Target → ℕ → Target
remove_timer s timer =
    if mem timer s.timer_list
    then record s { timer_list = remove timer s.timer_list }
    else record s { panicked = true }

unfoldable pub cancel_timer : Target → ℕ → Target
cancel_timer s timer = remove_timer s timer
