-- ===== src/Alarm.antt =====
-- kernel/alarm.c: the countdown of each task and its SIGALRM.
pub mod Countdown
mod Tests
use xbook.Prelude.{ℕ, ◌+◌, ◌-◌, ◌^◌, ◌%◌, Bool, true, false, List, [], ◌∷◌, ◌==◌, if◌then◌else◌}
use xbook.SigSet.{sigalrm}
use xbook.Task.{Task, Target}
use xbook.Signal.{force_to}

-- `HZ`, with a `CLOCK_QUICKEN` of 5
abbrev pub hz : ℕ
hz = 500

abbrev dec32 : ℕ → ℕ
dec32 n = (n + 2 ^ 32 - 1) % 2 ^ 32

-- A round of the loop of `UpdateAlarmSystem`; `sender` is the task that is running.
unfoldable pub tick : (sender : ℕ) → Target → Target
tick sender s =
    let ticks = dec32 s.task.alarm_ticks in
    let seconds = dec32 s.task.alarm_seconds in
    let counted = record s { task = record (s.task) { alarm_ticks = ticks } } in
    let turned = record s {
      task = record (s.task) { alarm_ticks = hz; alarm_seconds = seconds };
    } in
    let fired = (force_to sigalrm sender turned).1 in
    if s.task.alarm
    then if ticks == 0
      then if seconds == 0
        then record fired { task = record (fired.task) { alarm = false } }
        else turned
      else counted
    else s

-- All tasks, in the order of the global list, and what they share.
pub record Tasks : Type 0 where
  pub tasks : List Task
  pub ready_list : List ℕ
  pub timer_list : List ℕ
  pub panicked : Bool

-- `UpdateAlarmSystem`; the search of `ForceSignal` by pid finds the task itself, as pids differ.
unfoldable pub update_alarm_system : (sender : ℕ) → List Task → Tasks → Tasks
update_alarm_system sender [] done = done
update_alarm_system sender (task ∷ next) done =
    let s = tick sender (record {
      task = task;
      ready_list = done.ready_list;
      timer_list = done.timer_list;
      panicked = done.panicked;
    }) in
    let rest = update_alarm_system sender next (record {
      tasks = [];
      ready_list = s.ready_list;
      timer_list = s.timer_list;
      panicked = s.panicked;
    }) in
    record rest { tasks = s.task ∷ rest.tasks }

-- `SysAlarm`: the task and the seconds that were left.
unfoldable pub sys_alarm : (seconds : ℕ) → Task → Task × ℕ
sys_alarm seconds task =
    if seconds == 0 then (record task { alarm = false }, task.alarm_seconds) else (
      record task { alarm = true; alarm_seconds = seconds; alarm_ticks = hz },
      task.alarm_seconds,
    )
