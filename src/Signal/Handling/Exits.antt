-- ===== src/Signal/Handling/Exits.antt =====
-- The loop of `DoSignal`: which signals end a task.
use xbook.Prelude.{
  ℕ, zero, suc, ◌+◌, ◌-◌, ◌≤◌, ◌<◌, ◌≡◌, ◌≢◌, refl, sym, ap, ◌∙◌, Bool, true, false, not, ◌&&◌,
  ◌==◌, Bool-cases, inl, inr, arith,
}
use xbook.SigSet.{is_bad_signal, sigismember}
use xbook.Task.{Task, Action, stopped}
use xbook.Signal.{sig_dfl, is_stop_signal, calc_signal_left}
use xbook.Signal.Handling.{
  Running, Outcome, returned, exited, is_harmless, take, default_action, handle_signal, receive,
  do_signals, do_signal, user_code_sel,
}
use xbook.Signal.Handling.Rounds.{
  IsQuiet, is_counted, is_returned, after, Outcome-cases, is_due_lem, round,
}

-- The signal that `SysExit` is called with.
abbrev pub exit_signal : Outcome → ℕ
exit_signal (returned _) = 0
exit_signal (exited sig _) = sig

-- Does the signal end the task: is it pending, not blocked, and left to a default that is neither
-- to ignore it nor to stop, in a task other than the first?
abbrev pub is_deadly : ℕ → Task → Bool
is_deadly t task =
    sigismember task.signal_pending t
    && (not (sigismember task.signal_blocked t)
        && ((task.action (t - 1)).handler == sig_dfl
            && (not (task.pid == 0) && (not (is_harmless t) && not (is_stop_signal t)))))

default_rest :
    (resume : Task → Task) (sig j : ℕ) (s : Running)
    → IsQuiet resume
    → ((after (default_action resume sig s)).task.pid ≡ s.task.pid)
      × ((after (default_action resume sig s)).task.action j ≡ s.task.action j)
unfolding default_action calc_signal_left
default_rest resume sig j s quiet =
    let asleep = record (s.task) { status = stopped; exit_status = sig } in
    (
      ground (arith, quiet.pid asleep),
      ground (arith, ap (λ (f : ℕ → Action). f j) (quiet.action asleep)),
    )

handled_rest :
    (sig j : ℕ) (s : Running)
    → j ≢ sig - 1
    → ((handle_signal sig s).task.pid ≡ s.task.pid)
      × ((handle_signal sig s).task.action j ≡ s.task.action j)
unfolding handle_signal
handled_rest sig j s ne = (ground arith, ground arith)

taken_rest :
    (sig : ℕ) (task : Task)
    → ((take sig task).pid ≡ task.pid) × ((take sig task).action ≡ task.action)
unfolding take calc_signal_left
taken_rest sig task = (refl, refl)

-- A round leaves the pid and the dispositions of the other signals alone.
received_rest :
    (resume : Task → Task) (sig j : ℕ) (s : Running)
    → IsQuiet resume
    → j ≢ sig - 1
    → ((after (receive resume sig s)).task.pid ≡ s.task.pid)
      × ((after (receive resume sig s)).task.action j ≡ s.task.action j)
unfolding receive
received_rest resume sig j s quiet ne =
    let s' = record s { task = take sig s.task } in
    let (p, a) = taken_rest sig s.task in
    let (dp, da) = default_rest resume sig j s' quiet in
    let (hp, ha) = handled_rest sig j s' ne in
    let a' : (take sig s.task).action j ≡ s.task.action j = ap (λ (f : ℕ → Action). f j) a in
    (ground (arith, p, dp, hp), ground (arith, a', da, ha))

received_exit :
    (resume : Task → Task) (sig : ℕ) (s : Running)
    → is_bad_signal sig ≡ false
    → is_returned (receive resume sig s) ≡ false
    → (exit_signal (receive resume sig s) ≡ sig) × (is_deadly sig s.task ≡ true)
unfolding receive default_action take calc_signal_left
received_exit resume sig s good gone =
    let due = is_due_lem sig s.task good in (ground arith, ground (arith, due))

do_signals_exit :
    (rounds : ℕ) (resume : Task → Task) (sig : ℕ) (s : Running)
    → IsQuiet resume
    → is_counted s.task ≡ true
    → 0 < sig
    → sig + rounds ≤ 32
    → is_returned (do_signals rounds resume sig s) ≡ false
    → (sig ≤ exit_signal (do_signals rounds resume sig s))
      × (is_deadly (exit_signal (do_signals rounds resume sig s)) s.task ≡ true)
unfolding do_signals
do_signals_exit zero resume sig s quiet counted low high gone = absurd (ground (arith, gone))
do_signals_exit (suc rounds) resume sig s quiet counted low high gone =
    elim (Bool-cases s.task.signal_left) [
      | inr none' ↦ absurd (ground arith)
      | inl some' ↦ elim (Outcome-cases (receive resume sig s)) [
        | inr (status, s', e) ↦
            let stops : do_signals (suc rounds) resume sig s ≡ exited status s' =
              rw (e, some') refl in
            let (same, deadly) = received_exit resume sig s (ground arith) (ap is_returned e) in
            let it : status ≡ sig = sym (ap exit_signal e) ∙ same in
            rw stops (omega (arith, it), ap (λ k. is_deadly k s.task) it ∙ deadly)
        | inl (s', e) ↦
            let goes : do_signals (suc rounds) resume sig s
                ≡ do_signals rounds resume (sig + 1) s' =
              rw (e, some') refl in
            let t = exit_signal (do_signals rounds resume (sig + 1) s') in
            let (b, p, c) = round resume sig t s quiet counted (ground arith) (ap is_returned e) in
            let same : (after (receive resume sig s)).task ≡ s'.task = ap (λ o. (after o).task) e in
            let (from, deadly) =
              do_signals_exit rounds resume (sig + 1) s' quiet (ap is_counted (sym same) ∙ c)
                (omega arith) (omega arith) (ap is_returned (sym goes) ∙ gone) in
            let (pid, acts) = received_rest resume sig (t - 1) s quiet (λ d. omega (arith, from)) in
            rw goes (
              omega (arith, from),
              ground (
                arith,
                deadly,
                p,
                pid,
                from,
                ap (λ k. sigismember k.signal_pending t) same,
                ap (λ k. sigismember k.signal_blocked t) same,
                ap (λ k. sigismember k t) b,
                ap (λ (k : Task). k.pid) same,
                ap (λ (k : Task). (k.action (t - 1)).handler) same,
                ap (λ (a : Action). a.handler) acts,
              ),
            )
      ]
    ]

-- If `DoSignal` does not return, where nothing sends the task a signal or changes its dispositions
-- meanwhile, it ends the task with a signal that was pending and not blocked and whose default
-- disposition is to end a task, which is not the first one.
pub do_signal_exit :
    (resume : Task → Task) (s : Running)
    → IsQuiet resume
    → is_returned (do_signal resume s) ≡ false
    → is_deadly (exit_signal (do_signal resume s)) s.task ≡ true
unfolding do_signal
do_signal_exit resume s quiet gone = elim (Bool-cases s.task.signal_left) [
  | inr none' ↦ absurd (ground arith)
  | inl some' ↦ elim (Bool-cases (s.frame.cs == user_code_sel)) [
    | inr kernel ↦ absurd (ground arith)
    | inl user ↦
        let goes : do_signal resume s ≡ do_signals 31 resume 1 s = rw (some', user) refl in
        rw goes (
          (do_signals_exit 31 resume 1 s quiet (ground arith) (omega arith) (omega arith)
            (ap is_returned (sym goes) ∙ gone)).1)
  ]
]
