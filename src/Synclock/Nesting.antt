-- ===== src/Synclock/Nesting.antt =====
-- kernel/synclock.c: a task that takes a lock several times.
use xbook.Prelude.{
  ℕ, zero, suc, ◌+◌, ◌-◌, ◌%◌, ◌^◌, ◌<◌, ◌≡◌, refl, ap, ◌∙◌, true, none, some, [], ltb, ◌==◌, arith,
}
use xbook.Synclock.{Locking, is_held_by, inside, go, sync_lock, sync_unlock, semaphore_down}

-- `k` calls of `SyncLock`, and of `SyncUnlock`, by one task
unfoldable pub lock_times : ℕ → ℕ → Locking → Locking
lock_times zero t s = s
lock_times (suc k) t s = sync_lock t (lock_times k t s)

unfoldable pub unlock_times : ℕ → ℕ → Locking → Locking
unlock_times zero t s = s
unlock_times (suc k) t s = unlock_times k t (sync_unlock t s)

-- A task that holds the lock only counts.
module _ (t : ℕ) (s : Locking) (mine : s.lock.holder ≡ some t) where
  abbrev counted : ℕ → Locking
  counted n = record s { lock = record (s.lock) { holder_reapt_count = n } }

  held : is_held_by t s.lock.holder ≡ true
  held = rw mine (ground arith)

  lock_times-counted :
      (k : ℕ)
      → s.lock.holder_reapt_count + k < 2 ^ 32
      → lock_times k t s ≡ counted (s.lock.holder_reapt_count + k)
  unfolding lock_times sync_lock
  lock_times-counted zero lt =
      ap counted
        (let e : s.lock.holder_reapt_count ≡ s.lock.holder_reapt_count + 0 = omega arith in e)
  lock_times-counted (suc k) lt = rw (lock_times-counted k (omega arith)) (
      rw held (
        ap counted (
          let e : (s.lock.holder_reapt_count + k + 1) % 2 ^ 32 ≡ s.lock.holder_reapt_count + suc k =
            omega arith in
          e)))

  unlock_times-counted :
      (k : ℕ)
      → 0 < s.lock.holder_reapt_count
      → unlock_times k t (counted (s.lock.holder_reapt_count + k)) ≡ s
  unfolding unlock_times sync_unlock
  unlock_times-counted zero pos =
      ap counted
        (let e : s.lock.holder_reapt_count + 0 ≡ s.lock.holder_reapt_count = omega arith in e)
  unlock_times-counted (suc k) pos =
      let many : ltb 1 (s.lock.holder_reapt_count + suc k) ≡ true = ground arith in
      rw (held, many)
        (ap (λ (n : ℕ). unlock_times k t (counted n))
            (let e : s.lock.holder_reapt_count + suc k - 1 ≡ s.lock.holder_reapt_count + k =
                omega arith in
              e)
          ∙ unlock_times-counted k pos)

-- The task has the lock, once.
abbrev alone : ℕ → Locking → Locking
alone t s = record {
  lock = record {
    holder = some t;
    holder_reapt_count = 1;
    semaphore = record (s.lock.semaphore) { counter = s.lock.semaphore.counter - 1 };
  };
  place = go t inside s.place;
  panicked = s.panicked;
}

sync_lock-free :
    (t : ℕ) (s : Locking)
    → s.lock.holder ≡ none
    → s.lock.holder_reapt_count ≡ 0
    → 0 < s.lock.semaphore.counter
    → sync_lock t s ≡ alone t s
unfolding sync_lock semaphore_down
sync_lock-free t s nobody none_yet some_left =
    let left : ltb 0 s.lock.semaphore.counter ≡ true = ground arith in
    rw (nobody, left, none_yet) refl

sync_unlock-alone :
    (t : ℕ) (s : Locking)
    → 0 < s.lock.semaphore.counter
    → s.lock.semaphore.waiters ≡ []
    → let last = sync_unlock t (alone t s) in
      (last.lock.holder ≡ none)
      × (last.lock.holder_reapt_count ≡ 0)
      × (last.lock.semaphore.counter ≡ s.lock.semaphore.counter)
      × (last.lock.semaphore.waiters ≡ [])
      × (last.panicked ≡ s.panicked)
unfolding sync_unlock
sync_unlock-alone t s some_left queue =
    let self : (t == t) ≡ true = ground arith in
    rw self (refl, refl, rw queue (omega arith), rw queue refl, refl)

-- Where no other task or signal comes in between: a task that takes a free lock, whose semaphore has a
-- permit left and no task in its queue, holds it. Up to 2^32 - 2 further calls of `SyncLock` and as many
-- of `SyncUnlock` lead back to that, and one more `SyncUnlock` to the free lock, the semaphore as it
-- was; no assertion fails.
pub sync_unlock-sync_lock :
    (t k : ℕ) (s : Locking)
    → s.lock.holder ≡ none
    → s.lock.holder_reapt_count ≡ 0
    → s.lock.semaphore.waiters ≡ []
    → 0 < s.lock.semaphore.counter
    → k < 2 ^ 32 - 1
    → let first = sync_lock t s in
      let last = sync_unlock t first in
      (first.lock.holder ≡ some t)
      × (unlock_times k t (lock_times k t first) ≡ first)
      × (last.lock.holder ≡ none)
      × (last.lock.holder_reapt_count ≡ 0)
      × (last.lock.semaphore.counter ≡ s.lock.semaphore.counter)
      × (last.lock.semaphore.waiters ≡ [])
      × (last.panicked ≡ s.panicked)
sync_unlock-sync_lock t k s nobody none_yet queue some_left lt =
    let first = sync_lock t s in
    let taken = sync_lock-free t s nobody none_yet some_left in
    let mine : first.lock.holder ≡ some t = ap (λ (x : Locking). x.lock.holder) taken in
    let one : first.lock.holder_reapt_count ≡ 1 =
      ap (λ (x : Locking). x.lock.holder_reapt_count) taken in
    let (gone, reset, counter, waiters, sound) = sync_unlock-alone t s some_left queue in
    (
      mine,
      ap (unlock_times k t) (lock_times-counted t first mine k (omega (arith, one)))
          ∙ unlock_times-counted t first mine k (omega (arith, one)),
      ap (λ (x : Locking). (sync_unlock t x).lock.holder) taken ∙ gone,
      ap (λ (x : Locking). (sync_unlock t x).lock.holder_reapt_count) taken ∙ reset,
      ap (λ (x : Locking). (sync_unlock t x).lock.semaphore.counter) taken ∙ counter,
      ap (λ (x : Locking). (sync_unlock t x).lock.semaphore.waiters) taken ∙ waiters,
      ap (λ (x : Locking). (sync_unlock t x).panicked) taken ∙ sound,
    )
