-- ===== src/Scheduler/Tests.antt =====
-- kernel/schedule.c with three tasks.
use xbook.Prelude.{ℕ, ◌≡◌, refl, inr, false, none, [], ◌∷◌, ◌||◌, ◌==◌, if◌then◌else◌, arith}
use xbook.Task.{Status, ready, running, blocked, died, zombie, Task}
use xbook.Scheduler.{Scheduler, wake_up, task_yield, sched_softirq_handler, task_block}
use xbook.Scheduler.Invariant.{IsScheduled}
use xbook.Scheduler.Operations.{scheduler-IsScheduled}
use xbook.Scheduler.Rounds.{schedules, round_robin}

abbrev task_of : ℕ → Status → Task
task_of pid status = record {
  pid = pid;
  group_pid = pid;
  status = status;
  exit_status = 0;
  priority = 5;
  ticks = 3;
  signal_left = false;
  signal_catched = false;
  action = λ (n : ℕ). record { handler = 0; flags = 0 };
  sender = λ (n : ℕ). 0;
  signal_blocked = 0;
  signal_pending = 0;
  alarm = false;
  alarm_ticks = 0;
  alarm_seconds = 0;
  sleep_timer = none;
}

-- Task 1 runs, tasks 2 and 3 are ready, and task 0 is the idle one.
abbrev three : Scheduler
three = record {
  task = λ (t : ℕ). task_of t (
      if t == 0
      then blocked
      else if t == 1
      then running
      else if t == 2 || t == 3
      then ready
      else died);
  ready_list = 2 ∷ 3 ∷ [];
  current = 1;
  main_thread = 0;
  panicked = false;
}

three-IsScheduled : IsScheduled three
three-IsScheduled = record {
  queueing = record {
    named = λ t. refl;
    queued = λ t. ground arith;
    once = refl;
    idle = refl;
    sound = refl;
  };
  one = λ t. ground arith;
}

scheduler-IsScheduled_example :
    IsScheduled (wake_up 0 three)
    × IsScheduled (task_yield three)
    × IsScheduled (sched_softirq_handler three)
    × IsScheduled (task_block zombie three)
scheduler-IsScheduled_example =
    scheduler-IsScheduled three 0 zombie (inr (omega arith, refl)) three-IsScheduled

round_robin_example : (schedules 2 three).current ≡ 3
round_robin_example = round_robin (2 ∷ []) [] 3 three three-IsScheduled refl
