-- ===== src/Alarm/Tests.antt =====
-- kernel/alarm.c at one task.
use xbook.Prelude.{◌*◌, ◌≡◌, false, none, [], ◌∷◌, arith}
use xbook.Task.{running, Task, Target}
use xbook.Alarm.{sys_alarm}
use xbook.Alarm.Countdown.{at_count, ticks, fire, sys_alarm_lem}

abbrev clerk : Task
clerk = record {
  pid = 4;
  group_pid = 4;
  status = running;
  exit_status = 0;
  priority = 1;
  ticks = 4;
  signal_left = false;
  signal_catched = false;
  action = λ _. record { handler = 1; flags = 0 };
  sender = λ _. 0;
  signal_blocked = 0;
  signal_pending = 1;
  alarm = false;
  alarm_ticks = 0;
  alarm_seconds = 0;
  sleep_timer = none;
}

abbrev office : Target
office = record { task = clerk; ready_list = 1 ∷ []; timer_list = []; panicked = false }

abbrev set_office : Target
set_office = record office { task = (sys_alarm 2 clerk).0 }

sys_alarm_lem_example :
    (ticks 700 4 set_office ≡ record set_office {
      task =
          at_count set_office.task
            ((ticks 700 4 set_office).task.alarm_ticks)
            ((ticks 700 4 set_office).task.alarm_seconds);
    })
    × (ticks (2 * 500) 4 set_office ≡ fire 4 set_office)
sys_alarm_lem_example = sys_alarm_lem 700 2 4 office (omega arith) (omega arith) (omega arith)
