-- ===== src/Timer/Sleeping.antt =====
-- kernel/sleep_wakeup.c: how long `TaskSleep` sleeps.
use native.Mathlib.Decide.{ℕ_discrete}
use xbook.Prelude.{
  ℕ, suc, ◌+◌, ◌-◌, ◌*◌, ◌%◌, ◌^◌, ◌<◌, ◌≡◌, refl, true, false, ◌==◌, inl, arith, ap, ◌∙◌, Option,
  some,
}
use xbook.Task.{blocked, mem, write_at}
use xbook.Scheduler.{Scheduler, task_block}
use xbook.Scheduler.Queue.{mem-append, distinct-append}
use xbook.Scheduler.Invariant.{IsScheduled}
use xbook.Scheduler.Operations.{task_block-IsScheduled}
use xbook.Timer.{
  Timer, Timers, is_running, timer_init, add_timer, update_timer_system, task_sleep,
  task_sleep_return, sleep_ticks,
}
use xbook.Timer.Updates.{IsTicking, IsWalk, is_due, ticked, update_each-IsWalk}

-- What else the kernel does between two ticks may change everything but one timer: it may add and
-- cancel others, and wake, block and end tasks.
pub record IsApart (a : ℕ) (s s' : Timers) : Type 0 where
  pub ticking : IsTicking s'
  pub timer : s'.timer a ≡ s.timer a
  pub listed : mem a s'.timer_list ≡ mem a s.timer_list

-- `n` ticks, with something else before each
pub data Ticks (a : ℕ) (s : Timers) : ℕ → Timers → Type 0 where
  no_tick : Ticks a s 0 s
  tick :
      {n : ℕ} {t u : Timers}
      → Ticks a s n t
      → IsApart a t u
      → Ticks a s (suc n) (update_timer_system u)

pub tick-IsWalk :
    (a : ℕ) (s : Timers) → IsTicking s → IsWalk a s.timer_list s (update_timer_system s)
unfolding update_timer_system
tick-IsWalk a s ok = update_each-IsWalk a s.timer_list s ok ok.once (λ x m. m)

-- A running timer of the list
pub record IsArmed (a : ℕ) (left : ℕ) (s : Timers) : Type 0 where
  pub ticking : IsTicking s
  pub listed : mem a s.timer_list ≡ true
  pub runs : is_running (s.timer a).state ≡ true
  pub left_over : (s.timer a).expires ≡ left

IsApart-IsArmed :
    {a left : ℕ} {s s' : Timers} → IsArmed a left s → IsApart a s s' → IsArmed a left s'
IsApart-IsArmed {a} {left} set other = record {
  ticking = other.ticking;
  listed = other.listed ∙ set.listed;
  runs = rw (other.timer) set.runs;
  left_over = rw (other.timer) set.left_over;
}

tick-IsArmed :
    (a left : ℕ) (s : Timers)
    → IsArmed a (suc left) s
    → 0 < left
    → IsArmed a left (update_timer_system s)
      × (((update_timer_system s).timer a).task ≡ (s.timer a).task)
tick-IsArmed a left s set pos =
    let walk = tick-IsWalk a s set.ticking in
    let late : is_due (s.timer a) ≡ false = ground (arith, set.left_over) in
    let after : (update_timer_system s).timer a ≡ ticked (s.timer a) =
      walk.timer ∙ (rw (set.listed) refl) in
    let wide : (s.timer a).expires < 2 ^ 64 = set.ticking.wide a in
    let left' : (ticked (s.timer a)).expires ≡ left = ground (arith, set.left_over, set.runs) in
    (
      record {
        ticking = walk.ticking;
        listed = walk.listed ∙ (rw (set.listed, late) refl);
        runs = rw after (ground (arith, set.runs));
        left_over = rw after left';
      },
      rw after (ground arith),
    )

-- After `n` ticks of more than `n`, the timer is where it was set, with the rest to go.
Ticks-IsArmed :
    {a : ℕ} {s s' : Timers} (total left : ℕ) {n : ℕ}
    → IsArmed a total s
    → total ≡ n + left
    → 0 < left
    → Ticks a s n s'
    → IsArmed a left s' × ((s'.timer a).task ≡ (s.timer a).task)
Ticks-IsArmed {a} {s} total left set e pos no_tick =
    let same : total ≡ left = omega arith in (rw (← same) set, refl)
Ticks-IsArmed {a} {s} total left set e pos (tick {n} {t} {u} before other) =
    let (set1, task1) = Ticks-IsArmed total (suc left) set (omega arith) (omega arith) before in
    let (set2, task2) = tick-IsArmed a left u (IsApart-IsArmed set1 other) pos in
    (set2, task2 ∙ ap (λ (x : Timer). x.task) other.timer ∙ task1)

-- `current->sleepTimer = …` leaves the queues alone.
mark-IsScheduled :
    (t : ℕ) (timer : Option ℕ) (s : Scheduler)
    → IsScheduled s
    → IsScheduled
        (record s { task = write_at s.task t (record (s.task t) { sleep_timer = timer }) })
mark-IsScheduled t timer s ok =
    let q = ok.queueing in
    record {
      queueing = record {
        named = λ u. ground (arith, q.named u, q.named t);
        queued = λ u. ground (arith, q.queued u, ap s.task);
        once = q.once;
        idle = ground (arith, q.idle, ap s.task);
        sound = q.sound;
      };
      one = λ u. ground (arith, ok.one u, ap s.task);
    }

pub task_sleep-IsArmed :
    (a ticks : ℕ) (s : Timers)
    → IsTicking s
    → mem a s.timer_list ≡ false
    → ticks < 2 ^ 32
    → IsArmed a ticks (task_sleep a ticks s)
      × (((task_sleep a ticks s).timer a).task ≡ s.scheduler.current)
unfolding task_sleep timer_init add_timer
task_sleep-IsArmed a ticks s ok away lt =
    let current = s.scheduler.current in
    let self : (a == a) ≡ true = ground arith in
    let valid =
      task_block-IsScheduled blocked _ (inl refl)
        (mark-IsScheduled current (some a) s.scheduler ok.tasks) in
    (
      rw away (record {
        ticking = record {
          once = distinct-append a s.timer_list ok.once away;
          wide = λ x. ground (arith, ok.wide x);
          tasks = unfold task_block in valid;
        };
        listed = mem-append a a s.timer_list ∙ ground arith;
        runs = rw self refl;
        left_over = rw self refl;
      }),
      rw (away, self) refl,
    )

-- Before as many ticks as `TaskSleep` was given have passed, its timer runs, and a task that is woken
-- early, by a signal say, gets the ticks that are left as the result.
sleep_early :
    (a ticks n : ℕ) (s s' : Timers)
    → IsTicking s
    → mem a s.timer_list ≡ false
    → ticks < 2 ^ 32
    → Ticks a (task_sleep a ticks s) n s'
    → n < ticks
    → (mem a s'.timer_list ≡ true) × ((task_sleep_return a s').0 ≡ ticks - n)
unfolding task_sleep_return
sleep_early a ticks n s s' ok away lt passed few =
    let set = task_sleep-IsArmed a ticks s ok away lt in
    let (set', _) = Ticks-IsArmed ticks (ticks - n) set.0 (omega arith) (omega arith) passed in
    (set'.listed, rw set'.left_over (omega arith))

tick-zero : (a : ℕ) (s : Timers) → IsArmed a 0 s → IsArmed a (2 ^ 64 - 1) (update_timer_system s)
tick-zero a s set =
    let walk = tick-IsWalk a s set.ticking in
    let late : is_due (s.timer a) ≡ false = ground (arith, set.left_over) in
    let after : (update_timer_system s).timer a ≡ ticked (s.timer a) =
      walk.timer ∙ (rw (set.listed) refl) in
    let left' : (ticked (s.timer a)).expires ≡ 2 ^ 64 - 1 =
      ground (arith, set.left_over, set.runs) in
    record {
      ticking = walk.ticking;
      listed = walk.listed ∙ (rw (set.listed, late) refl);
      runs = rw after (ground (arith, set.runs));
      left_over = rw after left';
    }

zero-IsArmed :
    {a : ℕ} {s s' : Timers} {n : ℕ}
    → IsArmed a 0 s
    → n < 2 ^ 64
    → Ticks a s n s'
    → IsArmed a ((2 ^ 64 - n) % 2 ^ 64) s'
zero-IsArmed set lt no_tick = set
zero-IsArmed {a} set lt (tick {n} {t} {u} before other) =
    let set1 = IsApart-IsArmed (zero-IsArmed set (omega arith) before) other in
    elim (ℕ_discrete n 0) [
      | yes e ↦
          let now : (2 ^ 64 - n) % 2 ^ 64 ≡ 0 = omega arith in
          let then : (2 ^ 64 - suc n) % 2 ^ 64 ≡ 2 ^ 64 - 1 = omega arith in
          rw then (tick-zero a u (rw (← now) set1))
      | no ne ↦
          let left = (2 ^ 64 - suc n) % 2 ^ 64 in
          let now : (2 ^ 64 - n) % 2 ^ 64 ≡ suc left = omega arith in
          (tick-IsArmed a left u (rw (← now) set1) (omega arith)).0
    ]

-- Given no ticks, which `SysSleep` passes on for 0 seconds and for every multiple of 2^30, `TaskSleep`
-- waits for a timer that is in the list after any number of ticks below 2^64, whatever else the
-- kernel does to tasks and other timers before each, as long as nothing stops or cancels this timer.
pub sleep_zero :
    (a second n : ℕ) (s s' : Timers)
    → second % 2 ^ 30 ≡ 0
    → IsTicking s
    → mem a s.timer_list ≡ false
    → n < 2 ^ 64
    → Ticks a (task_sleep a (sleep_ticks second) s) n s'
    → mem a s'.timer_list ≡ true
unfolding sleep_ticks
sleep_zero a second n s s' whole ok away few passed =
    let none_left : second * 500 % 2 ^ 32 ≡ 0 = omega arith in
    let set : IsArmed a 0 (task_sleep a (second * 500 % 2 ^ 32) s) =
      rw none_left ((task_sleep-IsArmed a 0 s ok away (omega arith)).0) in
    (zero-IsArmed set few passed).listed
