-- ===== src/Signal/Tests.antt =====
-- kernel/signal.c, kernel/sleep_wakeup.c and share/signal.c at a small task.
use xbook.Prelude.{◌+◌, ◌-◌, ◌^◌, ◌≡◌, refl, true, false, not, ◌&&◌, ◌||◌, some, [], ◌∷◌, arith}
use xbook.Bits.{complement}
use xbook.SigSet.{sigkill, sigusr1, sigdelset, sigismember}
use xbook.Task.{ready, blocked, Action, Task, Target, is_blocked, is_stopped}
use xbook.Task.Wake.{IsQueued}
use xbook.Signal.{handle_stop_signal, ignore_signal, calc_signal_left, send_to}
use xbook.Signal.Groups.{Kernel, find_task_by_pid, sys_kill, is_addressed, sys_kill_others}
use xbook.Signal.Delivery.{send_to_lem, send_to-sigkill}
use xbook.Signal.Handling.{
  default_action, TrapFrame, Running, handle_signal, sys_signal_return, take, receive, do_signals,
  do_signal,
}
use xbook.Signal.Handling.Return.{pop_return, sys_signal_return-handle_signal}
use xbook.Signal.Handling.Exits.{exit_signal, is_deadly, do_signal_exit}
use xbook.Signal.Handling.Rounds.{IsQuiet, after, do_signal_lem}

abbrev caught : Action
caught = record { handler = 0x1000; flags = 1 }

-- A task that sleeps on timer 5, has SIGUSR2 blocked and catches every signal.
abbrev sleeper : Task
sleeper = record {
  pid = 3;
  group_pid = 3;
  status = blocked;
  exit_status = 0;
  priority = 1;
  ticks = 4;
  signal_left = false;
  signal_catched = false;
  action = λ _. caught;
  sender = λ _. 0;
  signal_blocked = 2 ^ 12;
  signal_pending = 1;
  alarm = false;
  alarm_ticks = 0;
  alarm_seconds = 0;
  sleep_timer = some 5;
}

abbrev target : Target
target = record {
  task = sleeper;
  ready_list = 1 ∷ 2 ∷ [];
  timer_list = 4 ∷ 5 ∷ [];
  panicked = false;
}

target-IsQueued : IsQueued target
target-IsQueued = record { agrees = refl; timed = refl; sound = refl }

send_to_lem_example :
    ((send_to sigusr1 1 target).0 ≡ true)
    × (sigismember (send_to sigusr1 1 target).1.task.signal_pending sigusr1 ≡ true)
    × (not (sigismember (handle_stop_signal sigusr1 target).task.signal_blocked sigusr1)
          && is_blocked (send_to sigusr1 1 target).1.task.status
        ≡ false)
unfolding handle_stop_signal ignore_signal sigismember
send_to_lem_example = send_to_lem sigusr1 1 target target-IsQueued refl (omega arith) refl

send_to-sigkill_example :
    (sigismember (send_to sigkill 1 target).1.task.signal_pending sigkill ≡ true)
    × (is_blocked (send_to sigkill 1 target).1.task.status
          || is_stopped (send_to sigkill 1 target).1.task.status
        ≡ false)
unfolding sigismember
send_to-sigkill_example = send_to-sigkill 1 target target-IsQueued (omega arith) (omega arith) refl

abbrev ignored : Action
ignored = record { handler = 1; flags = 0 }

abbrev interrupted : TrapFrame
interrupted = record {
  vec_no = 0x80;
  edi = 0;
  esi = 0;
  ebp = 0x7fff_f100;
  esp_dummy = 0;
  ebx = 1;
  edx = 2;
  ecx = 3;
  eax = 4;
  gs = 43;
  fs = 43;
  es = 43;
  ds = 43;
  error_code = 0;
  eip = 0x1234;
  cs = 35;
  eflags = 0x202;
  esp = 0x7fff_f000;
  ss = 43;
}

-- SIGUSR1, which is caught, and SIGUSR2, which is blocked, are pending.
abbrev running_task : Running
running_task = record {
  task = record sleeper {
    status = ready;
    signal_left = true;
    signal_pending = 1 + 2 ^ 10 + 2 ^ 12;
  };
  frame = interrupted;
  stack = λ _. record { ret_addr = 0; signo = 0; trap_frame = interrupted; ret_code = [] };
}

sys_signal_return-handle_signal_example :
    let (s', eax) = sys_signal_return (pop_return (handle_signal 10 running_task)) in
    (s'.frame ≡ interrupted) × (eax ≡ 4) × (s'.task.signal_catched ≡ true)
sys_signal_return-handle_signal_example = sys_signal_return-handle_signal 10 running_task

id-IsQuiet : IsQuiet (λ t. t)
id-IsQuiet = record {
  pending = λ t. refl;
  blocked = λ t. refl;
  left = λ t. refl;
  action = λ t. refl;
  pid = λ t. refl;
}

do_signal_lem_example :
    let task' = (after (do_signal (λ t. t) running_task)).task in
    (task'.signal_blocked ≡ sleeper.signal_blocked)
    × (sigismember task'.signal_pending 12
        ≡ (sigismember (1 + 2 ^ 10 + 2 ^ 12) 12 && sigismember (2 ^ 12) 12))
unfolding do_signal do_signals receive take handle_signal calc_signal_left sigdelset complement
do_signal_lem_example = do_signal_lem (λ t. t) 12 running_task id-IsQuiet refl refl refl

-- SIGTERM is left to its default.
abbrev doomed : Running
doomed = record running_task {
  task = record (running_task.task) {
    signal_pending = 1 + 2 ^ 15;
    action = λ _. record { handler = 0; flags = 0 };
  };
}

do_signal_exit_example : is_deadly (exit_signal (do_signal (λ t. t) doomed)) doomed.task ≡ true
unfolding do_signal do_signals receive take default_action calc_signal_left sigdelset complement
do_signal_exit_example = do_signal_exit (λ t. t) doomed id-IsQuiet refl

-- Tasks 3 and 4, each in its own group; task 4 runs.
abbrev kernel : Kernel
kernel = record {
  tasks = sleeper ∷ record sleeper { pid = 4; group_pid = 4 } ∷ [];
  ready_list = [];
  timer_list = 5 ∷ [];
  panicked = false;
  current = record sleeper { pid = 4; group_pid = 4 };
}

-- The group of task 3
sys_kill_others_example :
    find_task_by_pid 4 (sys_kill (2 ^ 32 - 3) sigusr1 kernel).1.tasks
    ≡ find_task_by_pid 4 kernel.tasks
unfolding is_addressed
sys_kill_others_example = sys_kill_others (2 ^ 32 - 3) sigusr1 4 kernel refl
