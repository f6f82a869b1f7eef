-- ===== src/Timer/Updates.antt =====
-- drivers/timer.c: what one tick does to a timer and to its task.
use xbook.Prelude.{
  ℕ, ◌+◌, ◌-◌, ◌%◌, ◌^◌, ◌<◌, ◌≡◌, refl, Bool, true, false, not, ◌&&◌, ◌||◌, List, [], ◌∷◌, ◌==◌,
  if◌then◌else◌, Bool-cases, inl, inr, arith, ap, ◌∙◌, sym,
}
use native.Mathlib.Decide.{ℕ_discrete}
use xbook.Task.{mem, remove, is_blocked, is_stopped, is_waiting, task_wake_up, task_unblock}
use xbook.Scheduler.{Scheduler, wake_up}
use xbook.Scheduler.Queue.{distinct}
use xbook.Scheduler.Invariant.{IsScheduled}
use xbook.Scheduler.Operations.{wake_up-IsScheduled}
use xbook.Timer.{
  Timer, Timers, is_running, remove_timer, do_timer_handler, timer_update, update_each,
}

mem-remove :
    (a x : ℕ) (xs : List ℕ) → distinct xs ≡ true → mem a (remove x xs) ≡ (mem a xs && not (a == x))
mem-remove a x [] d = refl
mem-remove a x (y ∷ xs) d = ground (arith, mem-remove a x xs, ap (λ (t : ℕ). mem t xs))

distinct-remove : (x : ℕ) (xs : List ℕ) → distinct xs ≡ true → distinct (remove x xs) ≡ true
distinct-remove x [] d = refl
distinct-remove x (y ∷ xs) d = ground (arith, distinct-remove x xs, mem-remove y x xs)

-- No timer is in the list twice, each counts in 64 bits, and the tasks are in order.
pub record IsTicking (s : Timers) : Type 0 where
  pub once : distinct s.timer_list ≡ true
  pub wide : (a : ℕ) → (s.timer a).expires < 2 ^ 64
  pub tasks : IsScheduled s.scheduler

-- Whether a timer ends with this update
abbrev pub is_due : Timer → Bool
is_due t = is_running t.state && t.expires == 1

abbrev pub ticked : Timer → Timer
ticked t =
    if is_running t.state then record t { expires = (t.expires + 2 ^ 64 - 1) % 2 ^ 64 } else t

timer_update-timer :
    (a x : ℕ) (s : Timers)
    → mem x s.timer_list ≡ true
    → (timer_update x s).timer a ≡ (if a == x then ticked (s.timer a) else s.timer a)
unfolding timer_update do_timer_handler remove_timer
timer_update-timer a x s there = elim (ℕ_discrete a x) [
  | yes e ↦
      let same : (a == x) ≡ true = ground arith in
      let same' : (x == x) ≡ true = ground arith in
      elim (Bool-cases (is_running (s.timer x).state)) [
        | inl r ↦ elim (Bool-cases (((s.timer x).expires + 2 ^ 64 - 1) % 2 ^ 64 == 0)) [
          | inl z ↦ rw (same, e, r, z, there, same') refl
          | inr z ↦ rw (same, e, r, z, same') refl
        ]
        | inr r ↦ rw (same, e, r) refl
      ]
  | no ne ↦
      let other : (a == x) ≡ false = ground arith in
      let other' : (x == a) ≡ false = ground arith in
      elim (Bool-cases (is_running (s.timer x).state)) [
        | inl r ↦ elim (Bool-cases (((s.timer x).expires + 2 ^ 64 - 1) % 2 ^ 64 == 0)) [
          | inl z ↦ rw (other, r, z, there, other') refl
          | inr z ↦ rw (other, r, z, other') refl
        ]
        | inr r ↦ rw (other, r) refl
      ]
]

-- A timer that is due leaves the list, and its task is woken.
timer_update-due :
    (x : ℕ) (s : Timers)
    → mem x s.timer_list ≡ true
    → is_due (s.timer x) ≡ true
    → ((timer_update x s).timer_list ≡ remove x s.timer_list)
      × ((timer_update x s).scheduler ≡ wake_up (s.timer x).task s.scheduler)
unfolding timer_update do_timer_handler remove_timer
timer_update-due x s there due =
    let r : is_running (s.timer x).state ≡ true = ground arith in
    let z : (((s.timer x).expires + 2 ^ 64 - 1) % 2 ^ 64 == 0) ≡ true = ground arith in
    let same : (x == x) ≡ true = ground arith in
    (rw (r, z, there) refl, rw (r, z, there, same) refl)

timer_update-not_due :
    (x : ℕ) (s : Timers)
    → (s.timer x).expires < 2 ^ 64
    → is_due (s.timer x) ≡ false
    → ((timer_update x s).timer_list ≡ s.timer_list) × ((timer_update x s).scheduler ≡ s.scheduler)
unfolding timer_update
timer_update-not_due x s lt late = elim (Bool-cases (is_running (s.timer x).state)) [
  | inl r ↦
      let z : (((s.timer x).expires + 2 ^ 64 - 1) % 2 ^ 64 == 0) ≡ false = ground arith in
      (rw (r, z) refl, rw (r, z) refl)
  | inr r ↦ (rw r refl, rw r refl)
]

-- Who sleeps after a tick
wake_up-blocked :
    (t u : ℕ) (s : Scheduler)
    → IsScheduled s
    → is_blocked ((wake_up u s).task t).status ≡ (is_blocked (s.task t).status && not (t == u))
unfolding wake_up task_wake_up task_unblock
wake_up-blocked t u s ok =
    let q = ok.queueing in
    elim (ℕ_discrete t u) [
      | yes e ↦
          let same : (u == u) ≡ true = ground arith in
          rw e (elim (Bool-cases (is_blocked (s.task u).status || is_stopped (s.task u).status)) [
            | inl asleep ↦
                let away : mem u s.ready_list ≡ false = ground (arith, q.queued u) in
                let fit : (is_blocked (s.task u).status
                      || (is_waiting (s.task u).status || is_stopped (s.task u).status))
                    ≡ true =
                  ground arith in
                rw (same, asleep, fit, q.named u, away) (ground arith)
            | inr up ↦ rw (same, up) (ground arith)
          ])
      | no ne ↦
          let other : (u == t) ≡ false = ground arith in
          let other' : (t == u) ≡ false = ground arith in rw (other, other') (ground arith)
    ]

abbrev pub asleep : ℕ → Timers → Bool
asleep t s = is_blocked (s.scheduler.task t).status

record IsUpdate (x : ℕ) (s s' : Timers) : Type 0 where
  ticking : IsTicking s'
  listed :
      (a : ℕ) → mem a s'.timer_list ≡ (mem a s.timer_list && not (a == x && is_due (s.timer x)))
  sleeping :
      (t : ℕ) → asleep t s' ≡ (asleep t s && not (is_due (s.timer x) && t == (s.timer x).task))

ticked-wide : (t : Timer) → t.expires < 2 ^ 64 → (ticked t).expires < 2 ^ 64
ticked-wide t h = ground arith

timer_update-IsUpdate :
    (x : ℕ) (s : Timers) → IsTicking s → mem x s.timer_list ≡ true → IsUpdate x s (timer_update x s)
timer_update-IsUpdate x s ok there =
    let s' = timer_update x s in
    let timer : Timer = s.timer x in
    let wide' : (a : ℕ) → (s'.timer a).expires < 2 ^ 64 =
      λ a. ground (arith, timer_update-timer a x s there, ok.wide a, ticked-wide (s.timer a)) in
    elim (Bool-cases (is_due timer)) [
      | inl due ↦
          let (list, tasks) = timer_update-due x s there due in
          record {
            ticking = record {
              once = rw list (distinct-remove x s.timer_list ok.once);
              wide = wide';
              tasks = rw tasks (wake_up-IsScheduled timer.task s.scheduler ok.tasks);
            };
            listed = λ a. rw (list, due) (mem-remove a x s.timer_list ok.once ∙ ground arith);
            sleeping = λ t.
                rw (tasks, due) (wake_up-blocked t timer.task s.scheduler ok.tasks ∙ ground arith);
          }
      | inr late ↦
          let (list, tasks) = timer_update-not_due x s (ok.wide x) late in
          record {
            ticking = record { once = rw list ok.once; wide = wide'; tasks = rw tasks ok.tasks };
            listed = λ a. rw (list, late) (ground arith);
            sleeping = λ t. rw (tasks, late) (ground arith);
          }
    ]

-- What a walk over some of the timers in the list does to one timer and its task
pub record IsWalk (a : ℕ) (xs : List ℕ) (s s' : Timers) : Type 0 where
  pub ticking : IsTicking s'
  pub timer : s'.timer a ≡ (if mem a xs then ticked (s.timer a) else s.timer a)
  pub listed : mem a s'.timer_list ≡ (mem a s.timer_list && not (mem a xs && is_due (s.timer a)))
  pub woken :
      (t : ℕ)
      → asleep t s' ≡ true
      → (asleep t s && not (mem a xs && (is_due (s.timer a) && t == (s.timer a).task))) ≡ true

pub update_each-IsWalk :
    (a : ℕ) (xs : List ℕ) (s : Timers)
    → IsTicking s
    → distinct xs ≡ true
    → ((x : ℕ) → mem x xs ≡ true → mem x s.timer_list ≡ true)
    → IsWalk a xs s (update_each xs s)
unfolding update_each
update_each-IsWalk a [] s ok d sub = record {
  ticking = ok;
  timer = refl;
  listed = ground arith;
  woken = λ t e. ground arith;
}
update_each-IsWalk a (x ∷ xs) s ok d sub =
    let s1 = timer_update x s in
    let there : mem x s.timer_list ≡ true = sub x (ground arith) in
    let step = timer_update-IsUpdate x s ok there in
    let sub1 : (y : ℕ) → mem y xs ≡ true → mem y s1.timer_list ≡ true =
      λ y m. ground (arith, step.listed y, sub y, ap (λ (z : ℕ). mem z xs)) in
    let ih = update_each-IsWalk a xs s1 step.ticking (ground arith) sub1 in
    let timer1 = timer_update-timer a x s there in
    elim (ℕ_discrete a x) [
      | yes e ↦
          let same : (a == x) ≡ true = ground arith in
          let away : mem a xs ≡ false = rw e (ground arith) in
          let t1 : s1.timer a ≡ ticked (s.timer a) = timer1 ∙ (rw same refl) in
          let at : s.timer x ≡ s.timer a = ap s.timer (sym e) in
          let l1 : mem a s1.timer_list ≡ (mem a s.timer_list && not (is_due (s.timer a))) =
            step.listed a ∙ (rw (same, at) refl) in
          let l2 : mem a (update_each xs s1).timer_list ≡ mem a s1.timer_list =
            ih.listed ∙ (rw away (ground arith)) in
          record {
            ticking = ih.ticking;
            timer = ih.timer ∙ (rw (away, same) t1);
            listed = l2 ∙ l1 ∙ (rw same refl);
            woken = λ t m.
                let w1 : (asleep t s1
                      && not (mem a xs && (is_due (s1.timer a) && t == (s1.timer a).task)))
                    ≡ true =
                  ih.woken t m in
                let w2 : asleep t s1
                    ≡ (asleep t s && not (is_due (s.timer a) && t == (s.timer a).task)) =
                  step.sleeping t ∙ (rw at refl) in
                rw same (ground arith);
          }
      | no ne ↦
          let other : (a == x) ≡ false = ground arith in
          let t1 : s1.timer a ≡ s.timer a = timer1 ∙ (rw other refl) in
          let l1 : mem a s1.timer_list ≡ mem a s.timer_list =
            step.listed a ∙ (rw other (ground arith)) in
          record {
            ticking = ih.ticking;
            timer = ih.timer ∙ (rw (other, t1) refl);
            listed = ih.listed ∙ (rw (other, t1, l1) refl);
            woken = λ t m.
                let w1 : (asleep t s1
                      && not (mem a xs && (is_due (s.timer a) && t == (s.timer a).task)))
                    ≡ true =
                  rw (← t1) (ih.woken t m) in
                rw other (ground (arith, step.sleeping t));
          }
    ]
