-- ===== src/Signal/Groups.antt =====
-- kernel/signal.c: signals to the tasks of a group, found in the list of all tasks. Pids are 32-bit
-- words, of which those from 2^31 on are negative.
use xbook.Prelude.{
  ℕ, ◌-◌, ◌%◌, ◌^◌, ◌≡◌, ◌≢◌, inl, inr, refl, sym, ◌∙◌, Bool, true, false, not, ◌&&◌, Option, none,
  some, List, [], ◌∷◌, ltb, leb, ◌==◌, if◌then◌else◌, Bool-cases, Option-cases, arith,
}
use native.Mathlib.Decide.{ℕ_discrete}
use xbook.Task.{Task, Target, is_blocked, task_unblock, task_wake_up, cancel_timer}
use xbook.Signal.{
  send_to, handle_stop_signal, deliver_signal, wake_pending, stop_sleeping, calc_signal_left,
}
use xbook.SigSet.{sigismember}

-- The list of all tasks, what they share, and the task that runs, of which only the pid and the
-- group are read here: they do not change, and its other fields may be out of date.
pub record Kernel : Type 0 where
  pub tasks : List Task
  pub ready_list : List ℕ
  pub timer_list : List ℕ
  pub panicked : Bool
  pub current : Task

unfoldable pub find_task_by_pid : ℕ → List Task → Option Task
find_task_by_pid pid [] = none
find_task_by_pid pid (task ∷ tasks) =
    if task.pid == pid then some task else find_task_by_pid pid tasks

-- The first task with a pid is changed.
abbrev pub put_task : ℕ → Task → List Task → List Task
put_task pid task [] = []
put_task pid task (t ∷ tasks) = if t.pid == pid then task ∷ tasks else t ∷ put_task pid task tasks

abbrev pub target : Task → Kernel → Target
target task k = record {
  task = task;
  ready_list = k.ready_list;
  timer_list = k.timer_list;
  panicked = k.panicked;
}

abbrev pub put_target : ℕ → Target → Kernel → Kernel
put_target pid t k = record k {
  tasks = put_task pid t.task k.tasks;
  ready_list = t.ready_list;
  timer_list = t.timer_list;
  panicked = t.panicked;
}

abbrev pub send_found : ℕ → ℕ → ℕ → Option Task → Kernel → Bool × Kernel
send_found pid signal sender none k = (false, k)
send_found pid signal sender (some task) k =
    let sent = send_to signal sender (target task k) in (sent.0, put_target pid sent.1 k)

unfoldable pub do_send_signal : ℕ → ℕ → ℕ → Kernel → Bool × Kernel
do_send_signal pid signal sender k = send_found pid signal sender (find_task_by_pid pid k.tasks) k

-- The loops over all tasks: a signal does not change which tasks there are, nor their pids and
-- groups.
unfoldable pub send_each : (Task → Bool) → ℕ → List Task → Kernel → Bool × Kernel
send_each chosen signal [] k = (true, k)
send_each chosen signal (task ∷ tasks) k =
    if chosen task
    then (let sent = do_send_signal task.pid signal k.current.pid k in
        let rest = send_each chosen signal tasks sent.1 in (sent.0 && rest.0, rest.1))
    else send_each chosen signal tasks k

unfoldable pub do_send_signal_group : ℕ → ℕ → Kernel → Bool × Kernel
do_send_signal_group gpid signal k =
    if ltb 0 gpid && ltb gpid (2 ^ 31)
    then send_each (λ task. task.group_pid == gpid) signal k.tasks k
    else (true, k)

unfoldable pub sys_kill : ℕ → ℕ → Kernel → Bool × Kernel
sys_kill pid signal k =
    if ltb 0 pid && ltb pid (2 ^ 31)
    then do_send_signal pid signal k.current.pid k
    else if pid == 0
    then do_send_signal_group k.current.group_pid signal k
    else if pid == 2 ^ 32 - 1
    then send_each
        (λ task. ltb 0 task.pid && (ltb task.pid (2 ^ 31) && not (task.pid == k.current.pid)))
        signal k.tasks k
    else do_send_signal_group ((2 ^ 32 - pid) % 2 ^ 32) signal k

task_wake_up-pid : (s : Target) → (task_wake_up s).task.pid ≡ s.task.pid
unfolding task_wake_up task_unblock
task_wake_up-pid s = ground arith

stop_sleeping-pid : (s : Target) → (stop_sleeping s).task.pid ≡ s.task.pid
unfolding stop_sleeping cancel_timer
stop_sleeping-pid s = elim (Option-cases s.task.sleep_timer) [
  | inl e ↦ rw e refl
  | inr (timer, e) ↦ rw e (ground arith)
]

handle_stop_signal-pid :
    (signal : ℕ) (s : Target) → (handle_stop_signal signal s).task.pid ≡ s.task.pid
unfolding handle_stop_signal
handle_stop_signal-pid signal s = ground (arith, task_wake_up-pid s)

wake_pending-pid : (signal : ℕ) (s : Target) → (wake_pending signal s).task.pid ≡ s.task.pid
unfolding wake_pending calc_signal_left
wake_pending-pid signal s = ground (arith, task_wake_up-pid s)

deliver_signal-pid :
    (signal sender : ℕ) (s : Target) → (deliver_signal signal sender s).1.task.pid ≡ s.task.pid
unfolding deliver_signal
deliver_signal-pid signal sender s = elim (Bool-cases (leb (2 ^ 31) sender)) [
  | inl e ↦ rw e refl
  | inr e ↦ elim (Bool-cases (sigismember s.task.signal_blocked signal)) [
    | inl b ↦ rw (e, b) refl
    | inr b ↦ elim (Bool-cases (is_blocked s.task.status)) [
      | inl c ↦ rw (e, b, c) (task_wake_up-pid _ ∙ stop_sleeping-pid _)
      | inr c ↦ rw (e, b, c) refl
    ]
  ]
]

send_to-pid : (signal sender : ℕ) (s : Target) → (send_to signal sender s).1.task.pid ≡ s.task.pid
unfolding send_to
send_to-pid signal sender s =
    let s' = handle_stop_signal signal s in
    ground (
      arith,
      handle_stop_signal-pid signal s,
      deliver_signal-pid signal sender s',
      wake_pending-pid signal s',
      wake_pending-pid signal (deliver_signal signal sender s').1,
    )

-- Changing a task does not change what is found under another pid.
find_put :
    (p pid : ℕ) (task : Task) (tasks : List Task)
    → task.pid ≡ pid
    → pid ≢ p
    → find_task_by_pid p (put_task pid task tasks) ≡ find_task_by_pid p tasks
unfolding find_task_by_pid
find_put p pid task [] e ne = refl
find_put p pid task (t ∷ tasks) e ne = ground (arith, find_put p pid task tasks e ne)

found-pid :
    (pid : ℕ) (tasks : List Task) (task : Task)
    → find_task_by_pid pid tasks ≡ some task
    → task.pid ≡ pid
unfolding find_task_by_pid
found-pid pid [] task e = cc
found-pid pid (t ∷ tasks) task e = elim (Bool-cases (t.pid == pid)) [
  | inl c ↦
      let here : find_task_by_pid pid (t ∷ tasks) ≡ some t = rw (find_task_by_pid, c) refl in
      let same : some t ≡ some task = sym here ∙ e in
      let eq : t ≡ task = cc in let at : t.pid ≡ pid = ground arith in rw (sym eq) at
  | inr c ↦
      let there : find_task_by_pid pid (t ∷ tasks) ≡ find_task_by_pid pid tasks =
        rw (find_task_by_pid, c) refl in
      found-pid pid tasks task (sym there ∙ e)
]

do_send_signal_others :
    (p pid signal sender : ℕ) (k : Kernel)
    → pid ≢ p
    → find_task_by_pid p (do_send_signal pid signal sender k).1.tasks ≡ find_task_by_pid p k.tasks
unfolding do_send_signal
do_send_signal_others p pid signal sender k ne =
    elim (Option-cases (find_task_by_pid pid k.tasks)) [
      | inl e ↦ rw (do_send_signal, e) refl
      | inr (task, e) ↦
          rw (do_send_signal, e)
            (find_put p pid _ k.tasks
              (send_to-pid signal sender (target task k) ∙ found-pid pid k.tasks task e) ne)
    ]

-- No task that is chosen has the pid `p`.
abbrev pub all_apart : (Task → Bool) → ℕ → List Task → Bool
all_apart chosen p [] = true
all_apart chosen p (task ∷ tasks) = not (chosen task && task.pid == p) && all_apart chosen p tasks

send_each_others :
    (chosen : Task → Bool) (p signal : ℕ) (tasks : List Task) (k : Kernel)
    → all_apart chosen p tasks ≡ true
    → find_task_by_pid p (send_each chosen signal tasks k).1.tasks ≡ find_task_by_pid p k.tasks
unfolding send_each
send_each_others chosen p signal [] k h = refl
send_each_others chosen p signal (task ∷ tasks) k h = elim (Bool-cases (chosen task)) [
  | inl c ↦
      let k' = (do_send_signal task.pid signal k.current.pid k).1 in
      let ne : task.pid ≢ p = ground arith in
      rw (send_each, c)
        (send_each_others chosen p signal tasks k' (ground arith)
          ∙ do_send_signal_others p task.pid signal k.current.pid k ne)
  | inr c ↦ rw (send_each, c) (send_each_others chosen p signal tasks k (ground arith))
]

not_found :
    (pid p : ℕ) (tasks : List Task)
    → pid ≡ p
    → all_apart (λ task. task.pid == pid) p tasks ≡ true
    → find_task_by_pid pid tasks ≡ none
unfolding find_task_by_pid
not_found pid p [] same h = refl
not_found pid p (task ∷ tasks) same h = ground (arith, not_found pid p tasks same)

-- Which tasks the first argument of `kill` stands for
unfoldable pub is_addressed : ℕ → Task → Task → Bool
is_addressed pid current task =
    if ltb 0 pid && ltb pid (2 ^ 31)
    then task.pid == pid
    else if pid == 0
    then task.group_pid == current.group_pid
    else if pid == 2 ^ 32 - 1
    then ltb 0 task.pid && (ltb task.pid (2 ^ 31) && not (task.pid == current.pid))
    else task.group_pid == (2 ^ 32 - pid) % 2 ^ 32

group_others :
    (gpid p signal : ℕ) (k : Kernel)
    → all_apart (λ task. task.group_pid == gpid) p k.tasks ≡ true
    → find_task_by_pid p (do_send_signal_group gpid signal k).1.tasks ≡ find_task_by_pid p k.tasks
unfolding do_send_signal_group
group_others gpid p signal k h = elim (Bool-cases (ltb 0 gpid && ltb gpid (2 ^ 31))) [
  | inl e ↦ rw (do_send_signal_group, e) (send_each_others _ p signal k.tasks k h)
  | inr e ↦ rw (do_send_signal_group, e) refl
]

all_apart-same :
    (f g : Task → Bool) (p : ℕ) (tasks : List Task)
    → ((task : Task) → f task ≡ g task)
    → all_apart f p tasks ≡ true
    → all_apart g p tasks ≡ true
all_apart-same f g p [] same h = refl
all_apart-same f g p (task ∷ tasks) same h =
    let e : f task ≡ g task = same task in ground (arith, all_apart-same f g p tasks same)

-- `kill` changes only tasks that its first argument stands for: where none of them has the pid `p`,
-- the task that is found under `p` is as before.
pub sys_kill_others :
    (pid signal p : ℕ) (k : Kernel)
    → all_apart (is_addressed pid k.current) p k.tasks ≡ true
    → find_task_by_pid p (sys_kill pid signal k).1.tasks ≡ find_task_by_pid p k.tasks
unfolding sys_kill is_addressed do_send_signal
sys_kill_others pid signal p k h =
    let narrow : (f : Task → Bool)
        → ((task : Task) → is_addressed pid k.current task ≡ f task)
        → all_apart f p k.tasks ≡ true =
      λ f same. all_apart-same (is_addressed pid k.current) f p k.tasks same h in
    elim (Bool-cases (ltb 0 pid && ltb pid (2 ^ 31))) [
      | inl e ↦ elim (ℕ_discrete pid p) [
        | yes same ↦
            let none' : find_task_by_pid pid k.tasks ≡ none =
              not_found pid p k.tasks same
                (narrow (λ task. task.pid == pid) (λ task. rw (is_addressed, e) refl)) in
            rw (sys_kill, e) (rw (do_send_signal, none') refl)
        | no ne ↦ rw (sys_kill, e) (do_send_signal_others p pid signal k.current.pid k ne)
      ]
      | inr e ↦ elim (Bool-cases (pid == 0)) [
        | inl z ↦
            rw (sys_kill, e, z)
              (group_others k.current.group_pid p signal k
                (narrow _ (λ task. rw (is_addressed, e, z) refl)))
        | inr z ↦ elim (Bool-cases (pid == 2 ^ 32 - 1)) [
          | inl a ↦
              rw (sys_kill, e, z, a)
                (send_each_others _ p signal k.tasks k
                  (narrow _ (λ task. rw (is_addressed, e, z, a) refl)))
          | inr a ↦
              rw (sys_kill, e, z, a)
                (group_others ((2 ^ 32 - pid) % 2 ^ 32) p signal k
                  (narrow _ (λ task. rw (is_addressed, e, z, a) refl)))
        ]
      ]
    ]
