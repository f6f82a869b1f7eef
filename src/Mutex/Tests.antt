-- ===== src/Mutex/Tests.antt =====
-- kernel/mutex.c at concrete tasks.
use xbook.Prelude.{ℕ, ◌≡◌, refl, true, false, arith}
use xbook.Mutex.{
  Mutex, System, locks, owns, queues, exchanges, Reaches, here, next, initial, has_mutex,
  lock_begin, unlock_begin, lock_step, own_step, queue_step, exchange_step, unlock_step, mutex_init,
  try_begin, try_end,
}
use xbook.Mutex.Exclusion.{mutex_exclusive}
use xbook.Mutex.Deadlock.{mutex_deadlock}

abbrev locked : System
locked = own_step 3 (lock_step 3 initial)

locked-Reaches : Reaches initial 2 locked
unfolding lock_step lock_begin mutex_init
locked-Reaches = next (next here (locks initial 3 refl)) (owns _ 3 refl)

mutex_exclusive_example : ◌≡◌ {A = ℕ} 3 3
unfolding own_step
mutex_exclusive_example = mutex_exclusive 2 locked 3 3 (omega arith) locked-Reaches refl refl

-- Task 1 has the mutex, and task 2 waits.
abbrev contended : System
contended = exchange_step 2 (queue_step 2 (lock_step 2 (own_step 1 (lock_step 1 initial))))

contended-Reaches : Reaches initial 5 contended
unfolding lock_step lock_begin own_step queue_step exchange_step mutex_init
contended-Reaches =
    next
      (next (next (next (next here (locks initial 1 refl)) (owns _ 1 refl)) (locks _ 2 refl))
        (queues _ 2 refl))
      (exchanges _ 2 refl)

abbrev left : System
left = unlock_step 1 contended

mutex_deadlock_example : has_mutex ((lock_step 7 left).phase 7) ≡ false
unfolding lock_step lock_begin own_step queue_step exchange_step unlock_step unlock_begin mutex_init
mutex_deadlock_example =
    mutex_deadlock 5 1 contended (lock_step 7 left) 1 7 (omega arith) contended-Reaches refl
      (omega arith) (next here (locks left 7 refl))

-- A task has the mutex and two others are between the two parts of `MutexTryLock` when a fourth
-- waits and the first unlocks: then both of them get the mutex.
abbrev tried_twice : Mutex
tried_twice = try_begin (try_begin (lock_begin mutex_init).1)

both_get_it : try_end (unlock_begin (record tried_twice { count = 0xffff_ffff })).1 ≡ true
unfolding unlock_begin
both_get_it = refl
