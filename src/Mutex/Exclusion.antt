-- ===== src/Mutex/Exclusion.antt =====
-- kernel/mutex.c: no two tasks have the mutex at once.
use mathlib.Core.Path.{subst}
use native.Mathlib.Decide.{ℕ_discrete}
use xbook.Prelude.{
  ℕ, suc, ◌+◌, ◌-◌, ◌%◌, ◌^◌, ◌≤◌, ◌<◌, ◌≡◌, ◌≢◌, ◌⊎◌, inl, inr, refl, sym, ◌∙◌, ap, true, false,
  Option, none, some, ltb, ◌==◌, if◌then◌else◌, Bool-cases, arith,
}
use xbook.Mutex.{
  Mutex, System, Phase, outside, trying, leaving, holding, waking, clearing, move, wake, wake_first,
  first_waiter, Step, locks, queues, exchanges, leaves, owns, unlocks, hands_on, clears, wakes,
  Reaches, here, next, initial, mutex_init, has_mutex, lock_begin, leave_queue, unlock_begin,
  unlock_waiting, lock_step, queue_step, exchange_step, leave_step, own_step, unlock_step,
  waking_step, clear_step,
}

-- After `n` steps the count is at most 1 and at least `-n`, it is 1 only if no task has the mutex,
-- and one task at most has it.
pub record IsExclusive (n : ℕ) (s : System) : Type 0 where
  pub low : (s.mutex.count ≤ 1) ⊎ ((2 ^ 32 ≤ s.mutex.count + n) × (s.mutex.count < 2 ^ 32))
  pub free : s.mutex.count ≡ 1 → (t : ℕ) → has_mutex (s.phase t) ≡ false
  pub one : (t u : ℕ) → has_mutex (s.phase t) ≡ true → has_mutex (s.phase u) ≡ true → t ≡ u

pub wake_keeps :
    (w : ℕ) (phase : ℕ → Phase) (t : ℕ) → has_mutex (wake w phase t) ≡ has_mutex (phase t)
wake_keeps w phase t = ground arith

pub wake_first_keeps :
    (w : Option ℕ) (phase : ℕ → Phase) (t : ℕ)
    → has_mutex (wake_first w phase t) ≡ has_mutex (phase t)
wake_first_keeps none phase t = refl
wake_first_keeps (some w) phase t = wake_keeps w phase t

-- If one task moves to a phase with the mutex only if it had the mutex, no task is new to it.
pub move_keeps :
    (t u : ℕ) (p : Phase) (phase : ℕ → Phase)
    → (has_mutex p ≡ true → has_mutex (phase t) ≡ true)
    → has_mutex (if t == u then p else phase u) ≡ true
    → has_mutex (phase u) ≡ true
move_keeps t u p phase keeps h = elim (ℕ_discrete t u) [
  | yes e ↦
      let c : (t == u) ≡ true = ground arith in
      let h' : has_mutex p ≡ true = subst (λ b. has_mutex (if b then p else phase u) ≡ true) c h in
      ap (λ x. has_mutex (phase x)) (sym e) ∙ keeps h'
  | no ne ↦
      let c : (t == u) ≡ false = ground arith in
      subst (λ b. has_mutex (if b then p else phase u) ≡ true) c h
]

module _ (n : ℕ) (s s' : System) (h : IsExclusive n s)
    (low : (s'.mutex.count ≤ 1)
      ⊎ ((2 ^ 32 ≤ s'.mutex.count + suc n) × (s'.mutex.count < 2 ^ 32))) where
  -- No task gets the mutex, and the count does not become 1.
  kept-IsExclusive :
      ((u : ℕ) → has_mutex (s'.phase u) ≡ true → has_mutex (s.phase u) ≡ true)
      → (s'.mutex.count ≡ 1 → s.mutex.count ≡ 1)
      → IsExclusive (suc n) s'
  kept-IsExclusive keeps count = record {
    low = low;
    free = λ e u. elim (Bool-cases (has_mutex (s'.phase u))) [
      | inl has ↦ let e1 = h.free (count e) u in let e2 = keeps u has in cc
      | inr has_not ↦ has_not
    ];
    one = λ t u a b. h.one t u (keeps t a) (keeps u b);
  }

  -- One task moves while no other has the mutex, and the count is not 1.
  given-IsExclusive :
      (t : ℕ)
      → ((u : ℕ) → has_mutex (s'.phase u) ≡ true → t ≢ u → has_mutex (s.phase u) ≡ true)
      → s.mutex.count ≡ 1
      → s'.mutex.count ≢ 1
      → IsExclusive (suc n) s'
  given-IsExclusive t others free not_free = record {
    low = low;
    free = λ e u. absurd (not_free e);
    one = λ u w a b. let u-is : t ≡ u = only u a in let w-is : t ≡ w = only w b in sym u-is ∙ w-is;
  }
    where
      only : (u : ℕ) → has_mutex (s'.phase u) ≡ true → t ≡ u
      only u a = elim (ℕ_discrete t u) [
        | yes e ↦ e
        | no ne ↦ let e1 = others u a ne in let e2 = h.free free u in absurd cc
      ]

  -- The task that has the mutex gives it up.
  released-IsExclusive :
      (t : ℕ)
      → has_mutex (s.phase t) ≡ true
      → ((u : ℕ) → has_mutex (s'.phase u) ≡ true → (t ≢ u) × (has_mutex (s.phase u) ≡ true))
      → IsExclusive (suc n) s'
  released-IsExclusive t had others = record {
    low = low;
    free = λ e u. elim (Bool-cases (has_mutex (s'.phase u))) [
      | inl has ↦ let (ne, a) = others u has in absurd (ne (h.one t u had a))
      | inr has_not ↦ has_not
    ];
    one = λ u w a b. let (ne, c) = others u a in absurd (ne (h.one t u had c));
  }

move_others :
    (t u : ℕ) (p : Phase) (phase : ℕ → Phase)
    → has_mutex (if t == u then p else phase u) ≡ true
    → t ≢ u
    → has_mutex (phase u) ≡ true
move_others t u p phase h ne =
    let c : (t == u) ≡ false = ground arith in
    subst (λ b. has_mutex (if b then p else phase u) ≡ true) c h

lock_step-IsExclusive :
    (n : ℕ) (s : System) (t : ℕ)
    → n < 2 ^ 31
    → s.phase t ≡ outside
    → IsExclusive n s
    → IsExclusive (suc n) (lock_step t s)
unfolding lock_step lock_begin
lock_step-IsExclusive n s t lt p h = elim (ℕ_discrete s.mutex.count 1) [
  | yes e ↦
      given-IsExclusive n s (lock_step t s) h (inl (rw e (omega arith))) t
        (λ u a ne. move_others t u _ s.phase a ne) e (rw e (omega arith))
  | no ne ↦
      let c : ltb ((s.mutex.count + 2 ^ 32 - 1) % 2 ^ 32) (2 ^ 31) ≡ false =
        ground (arith, h.low) in
      kept-IsExclusive n s (lock_step t s) h (ground (arith, h.low))
        (λ u a. move_keeps t u _ s.phase (λ e. ground arith) a) (λ e. ground (arith, h.low))
]

exchange_step-IsExclusive :
    (n : ℕ) (s : System) (t : ℕ)
    → n < 2 ^ 31
    → IsExclusive n s
    → IsExclusive (suc n) (exchange_step t s)
unfolding exchange_step
exchange_step-IsExclusive n s t lt h = elim (ℕ_discrete s.mutex.count 1) [
  | yes e ↦
      given-IsExclusive n s (exchange_step t s) h (inr (omega arith, omega arith)) t
        (λ u a ne. move_others t u _ s.phase a ne) e (omega arith)
  | no ne ↦
      let c : (s.mutex.count == 1) ≡ false = ground arith in
      kept-IsExclusive n s (exchange_step t s) h (inr (omega arith, omega arith))
        (λ u a. move_keeps t u _ s.phase (λ e. ground arith) a) (λ e. omega arith)
]

leave_step-IsExclusive :
    (n : ℕ) (s : System) (t : ℕ)
    → s.phase t ≡ leaving
    → IsExclusive n s
    → IsExclusive (suc n) (leave_step t s)
unfolding leave_step leave_queue
leave_step-IsExclusive n s t p h =
    kept-IsExclusive n s (leave_step t s) h (ground (arith, h.low))
      (λ u a. move_keeps t u _ s.phase (λ e. ap has_mutex p) a) (λ e. ground arith)

unlock_step-IsExclusive :
    (n : ℕ) (s : System) (t : ℕ)
    → n < 2 ^ 31
    → s.phase t ≡ holding
    → IsExclusive n s
    → IsExclusive (suc n) (unlock_step t s)
unfolding unlock_step unlock_begin
unlock_step-IsExclusive n s t lt p h =
    let had : has_mutex (s.phase t) ≡ true = ap has_mutex p in
    let not_free : s.mutex.count ≢ 1 = λ e. let e' = h.free e t in cc in
    released-IsExclusive n s (unlock_step t s) h (ground (arith, h.low)) t had (λ u a.
      elim (ℕ_discrete t u) [
        | yes e ↦ absurd (ground arith)
        | no ne ↦ (ne, move_others t u _ s.phase a ne)
      ])

waking_step-IsExclusive :
    (n : ℕ) (s : System) (t : ℕ)
    → n < 2 ^ 31
    → s.phase t ≡ waking
    → IsExclusive n s
    → IsExclusive (suc n) (waking_step t s)
unfolding waking_step unlock_waiting
waking_step-IsExclusive n s t lt p h =
    kept-IsExclusive n s (waking_step t s) h (ground (arith, h.low))
      (λ u a.
        move_keeps t u clearing s.phase (λ e. ground arith)
          (sym (wake_first_keeps (first_waiter s.mutex.wait_list) _ u) ∙ a))
      (λ e. ground (arith, h.low))

-- A step that moves a task between phases without the mutex, or between phases with it, and does
-- not change the count
move-IsExclusive :
    (n : ℕ) (s : System) (t : ℕ) (p : Phase) (m : Mutex)
    → (has_mutex p ≡ true → has_mutex (s.phase t) ≡ true)
    → m.count ≡ s.mutex.count
    → IsExclusive n s
    → IsExclusive (suc n) (move t p m s)
move-IsExclusive n s t p m keeps count h =
    kept-IsExclusive n s (move t p m s) h (ground (arith, h.low))
      (λ u a. move_keeps t u p s.phase keeps a) (λ e. sym count ∙ e)

Step-IsExclusive :
    {s s' : System} → (n : ℕ) → n < 2 ^ 31 → Step s s' → IsExclusive n s → IsExclusive (suc n) s'
unfolding queue_step own_step clear_step
Step-IsExclusive n lt (locks s t p) h = lock_step-IsExclusive n s t lt p h
Step-IsExclusive n lt (queues s t p) h = move-IsExclusive n s t trying _ (λ e. cc) refl h
Step-IsExclusive n lt (exchanges s t p) h = exchange_step-IsExclusive n s t lt h
Step-IsExclusive n lt (leaves s t p) h = leave_step-IsExclusive n s t p h
Step-IsExclusive n lt (owns s t p) h = move-IsExclusive n s t holding _ (λ e. ap has_mutex p) refl h
Step-IsExclusive n lt (unlocks s t p) h = unlock_step-IsExclusive n s t lt p h
Step-IsExclusive n lt (hands_on s t p) h = waking_step-IsExclusive n s t lt p h
Step-IsExclusive n lt (clears s t p) h = move-IsExclusive n s t outside _ (λ e. cc) refl h
Step-IsExclusive n lt (wakes s t) h =
    kept-IsExclusive n s (record s { phase = wake t s.phase }) h (ground (arith, h.low))
      (λ u a. sym (wake_keeps t s.phase u) ∙ a) (λ e. e)

pub Reaches-IsExclusive : {s : System} {n : ℕ} → n < 2 ^ 31 → Reaches initial n s → IsExclusive n s
unfolding mutex_init
Reaches-IsExclusive lt here = record {
  low = inl (omega arith);
  free = λ e t. refl;
  one = λ t u a b. cc;
}
Reaches-IsExclusive lt (next r step) =
    Step-IsExclusive _ (omega arith) step (Reaches-IsExclusive (omega arith) r)

-- In what can be reached from a new mutex in fewer than 2^31 steps of any tasks in any order, no
-- two tasks have the mutex.
pub mutex_exclusive :
    (n : ℕ) (s : System) (t u : ℕ)
    → n < 2 ^ 31
    → Reaches initial n s
    → has_mutex (s.phase t) ≡ true
    → has_mutex (s.phase u) ≡ true
    → t ≡ u
mutex_exclusive n s t u lt r = (Reaches-IsExclusive lt r).one t u
