-- ===== src/Synclock.antt =====
-- include/book/semaphore.h and kernel/synclock.c: a semaphore, and the lock that stands on it, which
-- its holder may take again: what the calls of one task do, up to where it blocks. The code runs with
-- interrupts on, so that other tasks and signals can come in between; that is not modelled.
pub mod Nesting
mod Tests
use xbook.Prelude.{
  ℕ, zero, suc, ◌+◌, ◌-◌, ◌%◌, ◌^◌, ◌≡◌, ◌⊎◌, Bool, true, false, not, Option, none, some, List, [],
  ◌∷◌, ◌++◌, ltb, ◌==◌, if◌then◌else◌,
}

-- `struct Semaphore`, with its waiting tasks
pub record Semaphore : Type 0 where
  pub counter : ℕ
  pub waiters : List ℕ

abbrev pub semaphore_init : ℕ → Semaphore
semaphore_init value = record { counter = value; waiters = [] }

-- Whether the task goes on; if not, it is blocked in the queue.
unfoldable pub semaphore_down : ℕ → Semaphore → Bool × Semaphore
semaphore_down task sema =
    if ltb 0 sema.counter
    then (true, record sema { counter = sema.counter - 1 })
    else (false, record sema { waiters = sema.waiters ++ (task ∷ []) })

abbrev pub up_with : List ℕ → Semaphore → Option ℕ × Semaphore
up_with [] sema = (none, record sema { counter = sema.counter + 1 })
up_with (task ∷ rest) sema = (some task, record sema { waiters = rest })

-- The task that is readied, if one waits
abbrev pub semaphore_up : Semaphore → Option ℕ × Semaphore
semaphore_up sema = up_with sema.waiters sema

-- `struct Synclock`
pub record Synclock : Type 0 where
  pub holder : Option ℕ
  pub holder_reapt_count : ℕ
  pub semaphore : Semaphore

abbrev pub synclock_init : Synclock
synclock_init = record { holder = none; holder_reapt_count = 0; semaphore = semaphore_init 1 }

-- Where a task is: without the lock, blocked in the semaphore's queue, readied by another task's
-- `SemaphoreUp`, or past `SyncLock`
pub data Place : Type 0 where
  outside waits readied inside : Place

pub record Locking : Type 0 where
  pub lock : Synclock
  pub place : ℕ → Place
  pub panicked : Bool

abbrev pub is_held_by : ℕ → Option ℕ → Bool
is_held_by t none = false
is_held_by t (some u) = t == u

abbrev pub go : ℕ → Place → (ℕ → Place) → ℕ → Place
go t p place u = if t == u then p else place u

-- What `SyncLock` does once the task has the semaphore
abbrev pub take_lock : ℕ → Semaphore → Locking → Locking
take_lock t sema s =
    if s.lock.holder_reapt_count == 0
    then record {
      lock = record { holder = some t; holder_reapt_count = 1; semaphore = sema };
      place = go t inside s.place;
      panicked = s.panicked;
    }
    else record s { panicked = true }

unfoldable pub sync_lock : ℕ → Locking → Locking
sync_lock t s =
    if is_held_by t s.lock.holder
    then record s {
      lock = record (s.lock) { holder_reapt_count = (s.lock.holder_reapt_count + 1) % 2 ^ 32 };
    }
    else if ltb 0 s.lock.semaphore.counter
    then take_lock t (semaphore_down t s.lock.semaphore).1 s
    else record s {
      lock = record (s.lock) { semaphore = (semaphore_down t s.lock.semaphore).1 };
      place = go t waits s.place;
    }

-- `SyncLock` after `Schedule` has returned
unfoldable pub sync_lock_resumed : ℕ → Locking → Locking
sync_lock_resumed t s = take_lock t s.lock.semaphore s

abbrev pub ready_task : Option ℕ → (ℕ → Place) → ℕ → Place
ready_task none place = place
ready_task (some t) place = go t readied place

unfoldable pub sync_unlock : ℕ → Locking → Locking
sync_unlock t s =
    if not (is_held_by t s.lock.holder)
    then record s { panicked = true }
    else if ltb 1 s.lock.holder_reapt_count
    then record s { lock = record (s.lock) { holder_reapt_count = s.lock.holder_reapt_count - 1 } }
    else if not (s.lock.holder_reapt_count == 1)
    then record s { panicked = true }
    else let (woken, sema) = semaphore_up s.lock.semaphore in
      record s {
        lock = record { holder = none; holder_reapt_count = 0; semaphore = sema };
        place = ready_task woken (go t outside s.place);
      }
