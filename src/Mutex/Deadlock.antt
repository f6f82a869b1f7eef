-- ===== src/Mutex/Deadlock.antt =====
-- kernel/mutex.c: what becomes of a mutex that a second task has waited for.
use xbook.Prelude.{
  ℕ, suc, ◌+◌, ◌-◌, ◌^◌, ◌≤◌, ◌<◌, ◌≡◌, ◌≢◌, ◌⊎◌, inl, inr, refl, Bool-cases, ◌∙◌, ap, Bool, true,
  false, arith,
}
use xbook.Mutex.{
  Mutex, System, Phase, outside, holding, trying, clearing, move, first_waiter, Step, locks, queues,
  exchanges, leaves, owns, unlocks, hands_on, clears, wakes, Reaches, here, next, initial,
  has_mutex, lock_begin, unlock_begin, unlock_waiting, lock_step, queue_step, exchange_step,
  leave_step, own_step, unlock_step, waking_step, clear_step,
}
use native.Mathlib.Decide.{ℕ_discrete}
use xbook.Mutex.Exclusion.{
  IsExclusive, Reaches-IsExclusive, move_keeps, wake_keeps, wake_first_keeps,
}

-- No task has the mutex, and its count is 0 or below, by at most `n`.
pub record IsStuck (n : ℕ) (s : System) : Type 0 where
  pub low : (s.mutex.count ≡ 0) ⊎ ((2 ^ 32 ≤ s.mutex.count + n) × (s.mutex.count < 2 ^ 32))
  pub lost : (t : ℕ) → has_mutex (s.phase t) ≡ false

still : (b c : Bool) → (b ≡ true → c ≡ true) → c ≡ false → b ≡ false
still true c h e = let e' = h refl in cc
still false c h e = refl

move-IsStuck :
    (n : ℕ) (s : System) (t : ℕ) (p : Phase) (m : Mutex)
    → has_mutex p ≡ false
    → (m.count ≡ 0) ⊎ ((2 ^ 32 ≤ m.count + suc n) × (m.count < 2 ^ 32))
    → IsStuck n s
    → IsStuck (suc n) (move t p m s)
move-IsStuck n s t p m without low h = record {
  low = low;
  lost = λ u. still _ _ (move_keeps t u p s.phase (λ e. cc)) (h.lost u);
}

-- No step leads out.
Step-IsStuck : {s s' : System} → (n : ℕ) → n < 2 ^ 31 → Step s s' → IsStuck n s → IsStuck (suc n) s'
unfolding queue_step own_step clear_step lock_step lock_begin exchange_step leave_step unlock_step
    waking_step unlock_waiting
Step-IsStuck n lt (locks s t p) h =
    move-IsStuck n s t _ _ (ground (arith, h.low)) (ground (arith, h.low)) h
Step-IsStuck n lt (queues s t p) h = move-IsStuck n s t trying _ refl (ground (arith, h.low)) h
Step-IsStuck n lt (exchanges s t p) h =
    move-IsStuck n s t _ _ (ground (arith, h.low)) (inr (omega arith, omega arith)) h
Step-IsStuck n lt (leaves s t p) h = let e = h.lost t in let e' = ap has_mutex p in absurd (cc)
Step-IsStuck n lt (owns s t p) h = let e = h.lost t in let e' = ap has_mutex p in absurd (cc)
Step-IsStuck n lt (unlocks s t p) h = let e = h.lost t in let e' = ap has_mutex p in absurd (cc)
Step-IsStuck n lt (hands_on s t p) h = record {
  low = ground (arith, h.low);
  lost = λ u.
      wake_first_keeps (first_waiter s.mutex.wait_list) _ u
      ∙ still _ _ (move_keeps t u clearing s.phase (λ e. cc)) (h.lost u);
}
Step-IsStuck n lt (clears s t p) h = move-IsStuck n s t outside _ refl (ground (arith, h.low)) h
Step-IsStuck n lt (wakes s t) h = record {
  low = ground (arith, h.low);
  lost = λ u. wake_keeps t s.phase u ∙ h.lost u;
}

weaker-IsStuck : {s : System} (j k : ℕ) → j ≤ k → IsStuck j s → IsStuck k s
weaker-IsStuck j k le h = record { low = ground (arith, h.low); lost = h.lost }

Reaches-IsStuck :
    {s s' : System} (k total : ℕ) {n : ℕ}
    → n + k ≤ total
    → total < 2 ^ 31
    → IsStuck k s
    → Reaches s n s'
    → IsStuck total s'
Reaches-IsStuck k total le lt h here = weaker-IsStuck k total (omega arith) h
Reaches-IsStuck k total le lt h (next {n} r step) =
    weaker-IsStuck (suc (n + k)) total (omega arith) (
      Step-IsStuck (n + k) (omega arith) step
        (Reaches-IsStuck k (n + k) (omega arith) (omega arith) h r))

-- The task that has the mutex unlocks it while the count is negative.
unlock_step-IsStuck :
    (m : ℕ) (s : System) (t : ℕ)
    → m < 2 ^ 31
    → IsExclusive m s
    → s.phase t ≡ holding
    → 2 ^ 31 ≤ s.mutex.count
    → IsStuck m (unlock_step t s)
unfolding unlock_step unlock_begin
unlock_step-IsStuck m s t lt h p negative = record {
  low = ground (arith, h.low);
  lost = λ u. elim (ℕ_discrete t u) [
    | yes e ↦ ground arith
    | no ne ↦ elim (Bool-cases (has_mutex (s.phase u))) [
      | inl has ↦ absurd (ne (h.one t u (ap has_mutex p) has))
      | inr has_not ↦ ground arith
    ]
  ];
}

-- In anything that can be reached from a new mutex, by any number of tasks and with wake-ups from
-- anywhere, if a task that is in the critical section unlocks it while its count is negative, then no
-- task has the mutex in anything that can be reached from there, as long as there are fewer than 2^31
-- steps together.
pub mutex_deadlock :
    (m n : ℕ) (s s' : System) (t u : ℕ)
    → n + m < 2 ^ 31
    → Reaches initial m s
    → s.phase t ≡ holding
    → 2 ^ 31 ≤ s.mutex.count
    → Reaches (unlock_step t s) n s'
    → has_mutex (s'.phase u) ≡ false
mutex_deadlock m n s s' t u lt before p negative after =
    (Reaches-IsStuck m (n + m) (omega arith) lt
        (unlock_step-IsStuck m s t (omega arith) (Reaches-IsExclusive (omega arith) before) p
          negative)
        after).lost
      u

-- The count is negative after a task locks the mutex that another has.
lock_step-negative :
    (m : ℕ) (s : System) (t u : ℕ)
    → m < 2 ^ 31 - 1
    → Reaches initial m s
    → has_mutex (s.phase t) ≡ true
    → 2 ^ 31 ≤ (lock_step u s).mutex.count
unfolding lock_step lock_begin
lock_step-negative m s t u lt r has =
    let h = Reaches-IsExclusive (omega arith) r in
    let taken : s.mutex.count ≢ 1 = λ e. let e' = h.free e t in cc in ground (arith, h.low)
