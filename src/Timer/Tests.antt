-- ===== src/Timer/Tests.antt =====
-- drivers/timer.c and kernel/sleep_wakeup.c with one task that sleeps.
use xbook.Prelude.{ℕ, ◌<◌, ◌^◌, ◌≡◌, refl, true, false, none, [], ◌∷◌, ◌==◌, if◌then◌else◌, arith}
use xbook.Task.{Task, Status, running, died, mem}
use xbook.Scheduler.{Scheduler}
use xbook.Scheduler.Invariant.{IsScheduled}
use xbook.Timer.{update_timer_system, Timers, TimerState, task_sleep, sleep_ticks}
use xbook.Timer.Updates.{IsTicking}
use xbook.Timer.Sleeping.{
  IsApart, Ticks, no_tick, tick, tick-IsWalk, task_sleep-IsArmed, sleep_zero,
}

abbrev task_of : ℕ → Status → Task
task_of pid status = record {
  pid = pid;
  group_pid = pid;
  status = status;
  exit_status = 0;
  priority = 1;
  ticks = 1;
  signal_left = false;
  signal_catched = false;
  action = λ _. record { handler = 0; flags = 0 };
  sender = λ _. 0;
  signal_blocked = 0;
  signal_pending = 0;
  alarm = false;
  alarm_ticks = 0;
  alarm_seconds = 0;
  sleep_timer = none;
}

abbrev alone : Scheduler
alone = record {
  task = λ t. task_of t (if t == 0 then running else died);
  ready_list = [];
  current = 0;
  main_thread = 0;
  panicked = false;
}

alone-IsScheduled : IsScheduled alone
alone-IsScheduled = record {
  queueing = record {
    named = λ t. refl;
    queued = λ t. ground arith;
    once = refl;
    idle = refl;
    sound = refl;
  };
  one = λ t. ground arith;
}

abbrev timers : Timers
timers = record {
  timer = λ _. record { expires = 9; task = 7; state = TimerState.stop };
  timer_list = 4 ∷ [];
  scheduler = alone;
}

timers-IsTicking : IsTicking timers
timers-IsTicking = record { once = refl; wide = λ a. omega arith; tasks = alone-IsScheduled }

-- Something else changes the tasks before a tick.
tasks-IsApart : (a : ℕ) (s : Timers) → IsTicking s → IsApart a s (record s { scheduler = alone })
tasks-IsApart a s ok = record {
  ticking = record { once = ok.once; wide = ok.wide; tasks = alone-IsScheduled };
  timer = refl;
  listed = refl;
}

abbrev ticked_alone : Timers → Timers
ticked_alone s = update_timer_system (record s { scheduler = alone })

two_ticks : (a : ℕ) (s : Timers) → IsTicking s → Ticks a s 2 (ticked_alone (ticked_alone s))
two_ticks a s ok =
    let first = tasks-IsApart a s ok in
    tick (tick no_tick first) (tasks-IsApart a _ (tick-IsWalk a _ first.ticking).ticking)

asleep-IsTicking : (ticks : ℕ) → ticks < 2 ^ 32 → IsTicking (task_sleep 5 ticks timers)
asleep-IsTicking ticks lt = ((task_sleep-IsArmed 5 ticks timers timers-IsTicking refl lt).0).ticking

sleep_zero_example :
    mem 5 (ticked_alone (ticked_alone (task_sleep 5 (sleep_ticks (2 ^ 30)) timers))).timer_list
    ≡ true
unfolding sleep_ticks
sleep_zero_example =
    sleep_zero 5 (2 ^ 30) 2 timers
      (ticked_alone (ticked_alone (task_sleep 5 (sleep_ticks (2 ^ 30)) timers))) refl
      timers-IsTicking refl (omega arith)
      (two_ticks 5 _ (asleep-IsTicking (sleep_ticks (2 ^ 30)) (omega arith)))
