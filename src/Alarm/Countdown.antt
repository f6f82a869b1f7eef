-- ===== src/Alarm/Countdown.antt =====
-- An alarm goes off after as many updates as its seconds have ticks, and not before.
use xbook.Prelude.{
  ℕ, zero, suc, ◌+◌, ◌-◌, ◌*◌, ◌^◌, ◌≤◌, ◌<◌, ◌≡◌, refl, sym, ap, ◌∙◌, true, false, arith,
}
use xbook.SigSet.{sigalrm}
use xbook.Task.{Task, Target}
use xbook.Signal.{force_to}
use xbook.Alarm.{tick, sys_alarm}

-- The updates that are left until the alarm goes off.
abbrev remaining : Task → ℕ
remaining task = (task.alarm_seconds - 1) * 500 + task.alarm_ticks

-- The countdown is running.
pub record IsCounting (task : Task) : Type 0 where
  pub on : task.alarm ≡ true
  pub seconds : (0 < task.alarm_seconds) × (task.alarm_seconds < 2 ^ 32)
  pub ticks : (0 < task.alarm_ticks) × (task.alarm_ticks ≤ 500)

abbrev pub ticks : ℕ → ℕ → Target → Target
ticks zero sender s = s
ticks (suc n) sender s = ticks n sender (tick sender s)

-- What a countdown leaves alone: everything but its two counters.
abbrev pub at_count : Task → (count seconds : ℕ) → Task
at_count task count seconds = record task { alarm_ticks = count; alarm_seconds = seconds }

tick_lem :
    (sender : ℕ) (s : Target)
    → IsCounting s.task
    → 1 < remaining s.task
    → (tick sender s ≡ record s {
      task =
          at_count s.task ((tick sender s).task.alarm_ticks) ((tick sender s).task.alarm_seconds);
    })
      × IsCounting (tick sender s).task
      × (remaining (tick sender s).task + 1 ≡ remaining s.task)
unfolding tick
tick_lem sender s c more = (
  ground (arith, c),
  record {
    on = ground (arith, c);
    seconds = (ground (arith, c), ground (arith, c));
    ticks = (ground (arith, c), ground (arith, c));
  },
  ground (arith, c),
)

-- What the updates before the last leave of everything but the counters.
ticks_lem :
    (n sender : ℕ) (s : Target)
    → IsCounting s.task
    → n < remaining s.task
    → (ticks n sender s ≡ record s {
      task =
          at_count s.task
            ((ticks n sender s).task.alarm_ticks)
            ((ticks n sender s).task.alarm_seconds);
    })
      × IsCounting (ticks n sender s).task
      × (remaining (ticks n sender s).task + n ≡ remaining s.task)
ticks_lem zero sender s c more = (refl, c, omega arith)
ticks_lem (suc n) sender s c more =
    let (e, c', r) = tick_lem sender s c (omega arith) in
    let (e', c'', r') = ticks_lem n sender (tick sender s) c' (omega (arith, r)) in
    (
      e'
          ∙ ap
              (λ (k : Target). record k {
                task =
                    at_count k.task ((ticks (suc n) sender s).task.alarm_ticks)
                      ((ticks (suc n) sender s).task.alarm_seconds);
              })
              e,
      c'',
      omega (arith, r, r'),
    )

last_tick :
    (sender : ℕ) (s : Target)
    → IsCounting s.task
    → remaining s.task ≡ 1
    → tick sender s ≡ (
        let fired = (force_to sigalrm sender (record s { task = at_count s.task 500 0 })).1 in
        record fired { task = record (fired.task) { alarm = false } })
unfolding tick
last_tick sender s c one = ground (arith, c)

ticks_suc : (n sender : ℕ) (s : Target) → ticks (suc n) sender s ≡ tick sender (ticks n sender s)
ticks_suc zero sender s = refl
ticks_suc (suc n) sender s = ticks_suc n sender (tick sender s)

-- What the last update makes of a task whose alarm goes off.
abbrev pub fire : (sender : ℕ) → Target → Target
fire sender s =
    let fired = (force_to sigalrm sender (record s { task = at_count s.task 500 0 })).1 in
    record fired { task = record (fired.task) { alarm = false } }

countdown :
    (sender : ℕ) (s : Target)
    → IsCounting s.task
    → ticks (remaining s.task) sender s ≡ fire sender s
countdown sender s c =
    let k = remaining s.task - 1 in
    let pos : suc k ≡ remaining s.task = omega (arith, c.ticks) in
    let (e, c', r) = ticks_lem k sender s c (omega (arith, c.ticks)) in
    ap (λ m. ticks m sender s) (sym pos)
    ∙ ticks_suc k sender s
    ∙ last_tick sender (ticks k sender s) c' (omega (arith, r, c.ticks))
    ∙ ap (fire sender) e

-- After `SysAlarm` with some seconds, the updates before the last of `seconds * 500` change no more
-- than the two counters of the task; the last one forces SIGALRM on it and ends the alarm.
pub sys_alarm_lem :
    (n seconds sender : ℕ) (s : Target)
    → 0 < seconds
    → seconds < 2 ^ 32
    → n < seconds * 500
    → let set = record s { task = (sys_alarm seconds s.task).0 } in
      let later = ticks n sender set in
      (later
        ≡ record set { task = at_count set.task later.task.alarm_ticks later.task.alarm_seconds })
      × (ticks (seconds * 500) sender set ≡ fire sender set)
unfolding sys_alarm
sys_alarm_lem n seconds sender s some' small before =
    let set = record s { task = (sys_alarm seconds s.task).0 } in
    let c : IsCounting set.task = record {
      on = ground arith;
      seconds = (ground arith, ground arith);
      ticks = (ground arith, ground arith);
    } in
    let all : remaining set.task ≡ seconds * 500 = ground arith in
    (
      (ticks_lem n sender set c (omega (arith, all))).0,
      ap (λ k. ticks k sender set) (sym all) ∙ countdown sender set c,
    )
