-- ===== src/Signal/Handling/Rounds.antt =====
-- The loop of `DoSignal`: what is left pending.
use xbook.Prelude.{
  ℕ, zero, suc, ◌+◌, ◌^◌, ◌≤◌, ◌<◌, ◌≡◌, refl, sym, ap, ◌∙◌, ◌⊎◌, Bool, true, false, not, ◌&&◌,
  ◌||◌, ltb, leb, ◌==◌, if◌then◌else◌, Bool-cases, inl, inr, arith,
}
use xbook.Bits.Laws.{zero-bit_and}
use xbook.SigSet.{is_bad_signal, sigismember}
use xbook.SigSet.Laws.{sigismember_bit, sigismember-sigdelset, sigismember-constants}
use xbook.Task.{Task, stopped}
use xbook.Signal.{calc_signal_left}
use xbook.Signal.Handling.{
  Running, Outcome, returned, exited, is_due, take, default_action, handle_signal, receive,
  do_signals, do_signal, user_code_sel,
}

-- Whatever runs while the task is stopped sends it no signal, and leaves what it does on signals
-- to itself.
pub record IsQuiet (resume : Task → Task) : Type 0 where
  pub pending : (t : Task) → (resume t).signal_pending ≡ t.signal_pending
  pub blocked : (t : Task) → (resume t).signal_blocked ≡ t.signal_blocked
  pub left : (t : Task) → (resume t).signal_left ≡ t.signal_left
  pub action : (t : Task) → (resume t).action ≡ t.action
  pub pid : (t : Task) → (resume t).pid ≡ t.pid

-- The loop may stop once `signalLeft` is clear.
abbrev pub is_counted : Task → Bool
is_counted task = task.signal_left || (task.signal_pending == 1 || task.signal_pending == 0)

-- What a task has pending and blocked, and whether it knows
abbrev AreSame : Task → Task → Type 0
AreSame task task' =
    (task'.signal_pending ≡ task.signal_pending)
    × (task'.signal_blocked ≡ task.signal_blocked)
    × (task'.signal_left ≡ task.signal_left)

abbrev pub is_returned : Outcome → Bool
is_returned (returned _) = true
is_returned (exited _ _) = false

abbrev pub after : Outcome → Running
after (returned s) = s
after (exited _ s) = s

pub Outcome-cases :
    (o : Outcome)
    → ((s : Running) × (o ≡ returned s)) ⊎ ((status : ℕ) × (s : Running) × (o ≡ exited status s))
Outcome-cases (returned s) = inl (s, refl)
Outcome-cases (exited status s) = inr (status, s, refl)

default_returned :
    (resume : Task → Task) (sig : ℕ) (s : Running)
    → IsQuiet resume
    → is_returned (default_action resume sig s) ≡ true
    → AreSame s.task (after (default_action resume sig s)).task
unfolding default_action
default_returned resume sig s quiet run =
    let asleep = record (s.task) { status = stopped; exit_status = sig } in
    (
      ground (arith, quiet.pending asleep),
      ground (arith, quiet.blocked asleep),
      ground (arith, quiet.left asleep),
    )

handled : (sig : ℕ) (s : Running) → AreSame s.task (handle_signal sig s).task
unfolding handle_signal
handled sig s = (ground arith, ground arith, ground arith)

-- A round that does not exit takes its signal if it is due, and no other.
received :
    (resume : Task → Task) (sig : ℕ) (s : Running)
    → IsQuiet resume
    → is_returned (receive resume sig s) ≡ true
    → AreSame
        (if is_due sig s.task then take sig s.task else s.task)
        (after (receive resume sig s)).task
unfolding receive
received resume sig s quiet run =
    let s' = record s { task = take sig s.task } in
    let (p, b, l) = handled sig s' in
    let d = default_returned resume sig s' quiet in
    (ground (arith, p, d), ground (arith, b, d), ground (arith, l, d))

pub is_due_lem :
    (sig : ℕ) (task : Task)
    → is_bad_signal sig ≡ false
    → is_due sig task
      ≡ (sigismember task.signal_pending sig && not (sigismember task.signal_blocked sig))
unfolding sigismember
is_due_lem sig task good = ground arith

take_lem :
    (sig t : ℕ) (task : Task)
    → ((take sig task).signal_blocked ≡ task.signal_blocked)
      × (sigismember (take sig task).signal_pending t
          ≡ (not (sig == t) && sigismember task.signal_pending t))
      × (is_counted (take sig task) ≡ true)
unfolding take calc_signal_left
take_lem sig t task =
    (ground arith, ground (arith, sigismember-sigdelset task.signal_pending sig t), ground arith)

-- A round that does not exit takes its signal if it is due, and no other.
pub round :
    (resume : Task → Task) (sig t : ℕ) (s : Running)
    → IsQuiet resume
    → is_counted s.task ≡ true
    → is_bad_signal sig ≡ false
    → is_returned (receive resume sig s) ≡ true
    → let task' = (after (receive resume sig s)).task in
      (task'.signal_blocked ≡ s.task.signal_blocked)
      × (sigismember task'.signal_pending t ≡ (
          not (sig == t && not (sigismember s.task.signal_blocked sig))
          && sigismember s.task.signal_pending t))
      × (is_counted task' ≡ true)
round resume sig t s quiet counted good run =
    let (p, b, l) = received resume sig s quiet run in
    let (tb, tp, tc) = take_lem sig t s.task in
    let due = is_due_lem sig s.task good in
    (
      ground (arith, b, tb),
      ground (
        arith,
        ap (λ set. sigismember set t) p,
        tp,
        due,
        λ (e : sig ≡ t). ap (sigismember s.task.signal_pending) e,
      ),
      ground (arith, p, l, tc),
    )

sigismember-zero : (t : ℕ) → sigismember 0 t ≡ false
unfolding sigismember
sigismember-zero t = ground (arith, zero-bit_and (2 ^ t))

idle :
    (task : Task) (t : ℕ)
    → is_counted task ≡ true
    → task.signal_left ≡ false
    → sigismember task.signal_pending t ≡ false
idle task t counted left = ground (
  arith,
  (sigismember-constants t).0,
  sigismember-zero t,
  λ (e : task.signal_pending ≡ 1). ap (λ set. sigismember set t) e,
  λ (e : task.signal_pending ≡ 0). ap (λ set. sigismember set t) e,
)

do_signals_lem :
    (rounds : ℕ) (resume : Task → Task) (sig t : ℕ) (s : Running)
    → IsQuiet resume
    → is_counted s.task ≡ true
    → 0 < sig
    → sig + rounds ≤ 32
    → is_returned (do_signals rounds resume sig s) ≡ true
    → let task' = (after (do_signals rounds resume sig s)).task in
      (task'.signal_blocked ≡ s.task.signal_blocked)
      × (sigismember task'.signal_pending t ≡ (
          sigismember s.task.signal_pending t
          && not
              ((leb sig t && ltb t (sig + rounds)) && not (sigismember s.task.signal_blocked t))))
unfolding do_signals
do_signals_lem zero resume sig t s quiet counted low high run = (refl, ground arith)
do_signals_lem (suc rounds) resume sig t s quiet counted low high run =
    elim (Bool-cases s.task.signal_left) [
      | inr none' ↦ (ground arith, ground (arith, idle s.task t counted none'))
      | inl some' ↦ elim (Outcome-cases (receive resume sig s)) [
        | inr (status, s', e) ↦
            let stops : do_signals (suc rounds) resume sig s ≡ exited status s' =
              rw (e, some') refl in
            absurd (ground (arith, ap is_returned stops))
        | inl (s', e) ↦
            let goes : do_signals (suc rounds) resume sig s
                ≡ do_signals rounds resume (sig + 1) s' =
              rw (e, some') refl in
            let (b, p, c) = round resume sig t s quiet counted (ground arith) (ap is_returned e) in
            let same : (after (receive resume sig s)).task ≡ s'.task = ap (λ o. (after o).task) e in
            let (b', p') =
              do_signals_lem rounds resume (sig + 1) t s' quiet (ap is_counted (sym same) ∙ c)
                (omega arith) (omega arith) (ap is_returned (sym goes) ∙ run) in
            rw goes (
              b' ∙ ap (λ (k : Task). k.signal_blocked) (sym same) ∙ b,
              ground (
                arith,
                p,
                p',
                ap (λ k. sigismember k.signal_pending t) same,
                ap (λ k. sigismember k.signal_blocked t) same,
                ap (λ k. sigismember k t) b,
                λ (d : sig ≡ t). ap (sigismember s.task.signal_blocked) d,
              ),
            )
      ]
    ]

-- `DoSignal`, entered from user space with `signalLeft` set, leaves pending exactly the blocked
-- ones of the signals that were, where it returns and nothing sends the task a signal meanwhile;
-- the blocked set stays.
pub do_signal_lem :
    (resume : Task → Task) (t : ℕ) (s : Running)
    → IsQuiet resume
    → s.task.signal_left ≡ true
    → s.frame.cs ≡ user_code_sel
    → is_returned (do_signal resume s) ≡ true
    → let task' = (after (do_signal resume s)).task in
      (task'.signal_blocked ≡ s.task.signal_blocked)
      × (sigismember task'.signal_pending t
          ≡ (sigismember s.task.signal_pending t && sigismember s.task.signal_blocked t))
unfolding do_signal
do_signal_lem resume t s quiet more user run =
    let goes : do_signal resume s ≡ do_signals 31 resume 1 s = rw (more, user) refl in
    let (b, p) =
      do_signals_lem 31 resume 1 t s quiet (ground arith) (omega arith) (omega arith)
        (ap is_returned (sym goes) ∙ run) in
    rw goes (b, p ∙ ground (arith, sigismember_bit s.task.signal_pending t))
