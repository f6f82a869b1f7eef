-- ===== src/Signal/Delivery.antt =====
-- What sending a signal promises: it is pending afterwards, and a task that can take it runs.
use xbook.Prelude.{
  ℕ, ◌-◌, ◌^◌, ◌<◌, ◌≡◌, ◌≢◌, ◌∙◌, refl, ap, true, false, not, ◌&&◌, ◌||◌, ◌==◌, Bool-cases, inl,
  inr, arith,
}
use xbook.SigSet.{SigSet, sigismember, is_bad_signal, sigaddset, sigkill}
use xbook.SigSet.Laws.{sigismember-sigaddset, sigismember-sigdelset, sigismember-constants}
use xbook.Task.{
  Action, Task, Target, write_at, is_blocked, is_stopped, task_unblock, task_wake_up, cancel_timer,
}
use xbook.Task.Wake.{IsQueued, task_wake_up_lem}
use xbook.Signal.Wellformed.{handle_stop_signal-IsQueued, deliver_signal-IsQueued}
use xbook.Signal.{
  handle_stop_signal, ignore_signal, stop_sleeping, deliver_signal, wake_pending, calc_signal_left,
  send_to, del_signal_from_task,
}

-- Waking changes the status alone, and ends a block whatever the queue.
task_wake_up-task :
    (s : Target) → (task_wake_up s).task ≡ record (s.task) { status = (task_wake_up s).task.status }
unfolding task_wake_up task_unblock
task_wake_up-task s = ground arith

-- `DelSignalFromTask` removes the signal.
del_signal_lem :
    (s t : ℕ) (set : SigSet)
    → sigismember ((del_signal_from_task s set).0) t ≡ (not (s == t) && sigismember set t)
unfolding del_signal_from_task
del_signal_lem s t set =
    ground (arith, sigismember-sigdelset set s t, λ (e : s ≡ t). ap (sigismember set) e)

-- What the two wake-ups of the sending code leave of the sets.
wake_pending-sets :
    (signo : ℕ) (s : Target)
    → ((wake_pending signo s).task.signal_pending ≡ s.task.signal_pending)
      × ((wake_pending signo s).task.signal_blocked ≡ s.task.signal_blocked)
unfolding wake_pending calc_signal_left
wake_pending-sets signo s =
    let w = task_wake_up-task s in
    (
      ground (arith, ap (λ (t : Task). t.signal_pending) w),
      ground (arith, ap (λ (t : Task). t.signal_blocked) w),
    )

stop_sleeping-sets :
    (s : Target)
    → ((stop_sleeping s).task.signal_pending ≡ s.task.signal_pending)
      × ((stop_sleeping s).task.signal_blocked ≡ s.task.signal_blocked)
      × ((stop_sleeping s).task.status ≡ s.task.status)
unfolding stop_sleeping cancel_timer
stop_sleeping-sets s = (ground arith, ground arith, ground arith)

deliver_signal-sets :
    (signo sender : ℕ) (s : Target)
    → sender < 2 ^ 31
    → ((deliver_signal signo sender s).0 ≡ true)
      × ((deliver_signal signo sender s).1.task.signal_pending
          ≡ sigaddset s.task.signal_pending signo)
      × ((deliver_signal signo sender s).1.task.signal_blocked ≡ s.task.signal_blocked)
unfolding deliver_signal
deliver_signal-sets signo sender s h =
    let marked = record s {
      task = record (s.task) {
        sender = write_at s.task.sender (signo - 1) sender;
        signal_pending = sigaddset s.task.signal_pending signo;
        signal_left = true;
      };
    } in
    let rested = stop_sleeping-sets marked in
    let w = task_wake_up-task (stop_sleeping marked) in
    (
      ground arith,
      ground (arith, rested, ap (λ (t : Task). t.signal_pending) w),
      ground (arith, rested, ap (λ (t : Task). t.signal_blocked) w),
    )

-- A member of a set makes it another set than the empty one.
member_not_empty : (set t : ℕ) → sigismember set t ≡ true → (set == 1) ≡ false
member_not_empty set t h = elim (Bool-cases (set == 1)) [
  | inr other ↦ other
  | inl one ↦
      let e : set ≡ 1 = ground arith in
      absurd (ground (arith, h, ap (λ (k : ℕ). sigismember k t) e, (sigismember-constants t).0))
]

wake_pending-runs :
    (signo : ℕ) (s : Target)
    → IsQueued s
    → sigismember s.task.signal_blocked signo ≡ false
    → (s.task.signal_pending == 1) ≡ false
    → is_blocked (wake_pending signo s).task.status ≡ false
unfolding wake_pending calc_signal_left
wake_pending-runs signo s q open' more = ground (arith, task_wake_up_lem s q)

-- A signal that is valid, comes from a valid sender and is not ignored is pending afterwards,
-- whether it is blocked or not; if it is not blocked, the task is no longer blocked.
pub send_to_lem :
    (signo sender : ℕ) (s : Target)
    → IsQueued s
    → is_bad_signal signo ≡ false
    → sender < 2 ^ 31
    → ignore_signal signo (handle_stop_signal signo s).task ≡ false
    → ((send_to signo sender s).0 ≡ true)
      × (sigismember (send_to signo sender s).1.task.signal_pending signo ≡ true)
      × (not (sigismember (handle_stop_signal signo s).task.signal_blocked signo)
            && is_blocked (send_to signo sender s).1.task.status
          ≡ false)
unfolding send_to
send_to_lem signo sender s q valid from kept =
    let s' = handle_stop_signal signo s in
    let q' = handle_stop_signal-IsQueued signo s q in
    let t = (deliver_signal signo sender s').1 in
    let (ok, adds, keeps) = deliver_signal-sets signo sender s' from in
    elim (Bool-cases (sigismember s'.task.signal_pending signo)) [
      | inl already ↦
          let e : send_to signo sender s ≡ (true, wake_pending signo s') = ground arith in
          rw e (
            refl,
            ap (λ set. sigismember set signo) (wake_pending-sets signo s').0 ∙ already,
            elim (Bool-cases (sigismember s'.task.signal_blocked signo)) [
              | inl shut ↦ ground arith
              | inr open' ↦ ground (
                arith,
                wake_pending-runs signo s' q' open'
                    (member_not_empty s'.task.signal_pending signo already),
              )
            ],
          )
      | inr fresh ↦
          let e : send_to signo sender s ≡ (true, wake_pending signo t) = ground (arith, ok) in
          let member : sigismember t.task.signal_pending signo ≡ true =
            ap (λ set. sigismember set signo) adds
            ∙ sigismember-sigaddset s'.task.signal_pending signo signo
            ∙ ground arith in
          rw e (
            refl,
            ap (λ set. sigismember set signo) (wake_pending-sets signo t).0 ∙ member,
            elim (Bool-cases (sigismember s'.task.signal_blocked signo)) [
              | inl shut ↦ ground arith
              | inr open' ↦ ground (
                arith,
                wake_pending-runs signo t (deliver_signal-IsQueued signo sender s' q')
                    (ap (λ set. sigismember set signo) keeps ∙ open')
                    (member_not_empty t.task.signal_pending signo member),
              )
            ],
          )
    ]

-- No step but the environment's stops a task.
wake_up-not_stopped :
    (s : Target)
    → is_stopped s.task.status ≡ false
    → is_stopped (task_wake_up s).task.status ≡ false
unfolding task_wake_up task_unblock
wake_up-not_stopped s h = ground arith

wake_pending-not_stopped :
    (signo : ℕ) (s : Target)
    → is_stopped s.task.status ≡ false
    → is_stopped (wake_pending signo s).task.status ≡ false
unfolding wake_pending calc_signal_left
wake_pending-not_stopped signo s h = ground (arith, wake_up-not_stopped s h)

deliver_signal-not_stopped :
    (signo sender : ℕ) (s : Target)
    → is_stopped s.task.status ≡ false
    → is_stopped (deliver_signal signo sender s).1.task.status ≡ false
unfolding deliver_signal
deliver_signal-not_stopped signo sender s h =
    let marked = record s {
      task = record (s.task) {
        sender = write_at s.task.sender (signo - 1) sender;
        signal_pending = sigaddset s.task.signal_pending signo;
        signal_left = true;
      };
    } in
    let same = (stop_sleeping-sets marked).2 in
    let rest : is_stopped (stop_sleeping marked).task.status ≡ false = ap is_stopped same ∙ h in
    ground (arith, wake_up-not_stopped (stop_sleeping marked) rest)

send_to-not_stopped :
    (signo sender : ℕ) (s : Target)
    → is_bad_signal signo ≡ false
    → is_stopped (handle_stop_signal signo s).task.status ≡ false
    → is_stopped (send_to signo sender s).1.task.status ≡ false
unfolding send_to
send_to-not_stopped signo sender s valid h =
    let s' = handle_stop_signal signo s in
    let t = (deliver_signal signo sender s').1 in
    ground (
      arith,
      wake_pending-not_stopped signo s' h,
      wake_pending-not_stopped signo t (deliver_signal-not_stopped signo sender s' h),
    )

-- What SIGKILL does before it is delivered.
handle_sigkill :
    (s : Target)
    → IsQueued s
    → ((handle_stop_signal sigkill s).task.action ≡ s.task.action)
      × (sigismember (handle_stop_signal sigkill s).task.signal_blocked sigkill
          ≡ sigismember s.task.signal_blocked sigkill)
      × (is_stopped (handle_stop_signal sigkill s).task.status ≡ false)
unfolding handle_stop_signal
handle_sigkill s q =
    let w = task_wake_up-task s in
    let woken = (task_wake_up_lem s q).1 in
    (
      ground (arith, ap (λ (t : Task). t.action) w),
      rw (del_signal_lem, del_signal_lem, del_signal_lem, del_signal_lem)
          (ground (arith, ap (λ (t : Task). sigismember t.signal_blocked sigkill) w)),
      ground (arith, woken),
    )

-- SIGKILL sent by a valid sender to a task that does not have it blocked and does not ignore it is
-- pending afterwards, and the task is neither blocked nor stopped.
pub send_to-sigkill :
    (sender : ℕ) (s : Target)
    → IsQueued s
    → sender < 2 ^ 31
    → (s.task.action 8).handler ≢ 1
    → sigismember s.task.signal_blocked sigkill ≡ false
    → let r = (send_to sigkill sender s).1 in
      (sigismember r.task.signal_pending sigkill ≡ true)
      × (is_blocked r.task.status || is_stopped r.task.status ≡ false)
unfolding ignore_signal
send_to-sigkill sender s q from kept free =
    let (acts, blocks, awake) = handle_sigkill s q in
    let (_, pends, runs) = send_to_lem sigkill sender s q refl from (heeded acts) in
    (pends, ground (arith, runs, blocks, free, send_to-not_stopped sigkill sender s refl awake))
  where
    heeded :
        (handle_stop_signal sigkill s).task.action ≡ s.task.action
        → ignore_signal sigkill (handle_stop_signal sigkill s).task ≡ false
    heeded e = ground (arith, ap (λ (f : ℕ → Action). (f 8).handler) e)
