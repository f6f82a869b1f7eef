-- ===== src/Synclock/Tests.antt =====
-- kernel/synclock.c with one task.
use xbook.Prelude.{◌≡◌, refl, false, none, some, [], arith}
use xbook.Synclock.{Locking, synclock_init, outside, sync_lock, sync_unlock}
use xbook.Synclock.Nesting.{lock_times, unlock_times, sync_unlock-sync_lock}

abbrev initial : Locking
initial = record { lock = synclock_init; place = λ _. outside; panicked = false }

sync_unlock-sync_lock_example :
    let first = sync_lock 3 initial in
    let last = sync_unlock 3 first in
    (first.lock.holder ≡ some 3)
    × (unlock_times 5 3 (lock_times 5 3 first) ≡ first)
    × (last.lock.holder ≡ none)
    × (last.lock.holder_reapt_count ≡ 0)
    × (last.lock.semaphore.counter ≡ 1)
    × (last.lock.semaphore.waiters ≡ [])
    × (last.panicked ≡ false)
sync_unlock-sync_lock_example =
    sync_unlock-sync_lock 3 5 initial refl refl refl (omega arith) (omega arith)
