-- ===== src/Mutex.antt =====
-- kernel/mutex.c: a mutex, and the tasks that lock and unlock it. An operation is cut where another
-- task can come between: what runs with interrupts off, or is one atomic instruction, is one
-- function. Counts are 32-bit words; -1 is `2 ^ 32 - 1`.
pub mod Exclusion
pub mod Deadlock
mod Tests
use xbook.Prelude.{
  ℕ, zero, suc, ◌+◌, ◌-◌, ◌%◌, ◌^◌, ◌≡◌, Bool, true, false, not, ◌&&◌, ◌||◌, Option, none, some,
  List, [], ◌∷◌, ◌++◌, ltb, ◌==◌, if◌then◌else◌,
}

-- `struct Mutex`; tasks are numbers, and the spin locks have no state here.
pub record Mutex : Type 0 where
  pub count : ℕ
  pub wait_list : List ℕ
  pub owner : Option ℕ

pub mutex_init : Mutex
mutex_init = record { count = 1; wait_list = []; owner = none }

-- The first part of `__MutexLock`: was the mutex free?
unfoldable pub lock_begin : Mutex → Bool × Mutex
lock_begin m =
    let count = (m.count + 2 ^ 32 - 1) % 2 ^ 32 in (ltb count (2 ^ 31), record m { count = count })

abbrev pub enqueue : ℕ → Mutex → Mutex
enqueue task m = record m { wait_list = m.wait_list ++ (task ∷ []) }

-- `ATOMIC_XCHG(&lock->count, -1)` and the test of the old value
abbrev pub exchange : Mutex → Bool × Mutex
exchange m = (m.count == 1, record m { count = 2 ^ 32 - 1 })

abbrev pub list_del : ℕ → List ℕ → List ℕ
list_del task [] = []
list_del task (x ∷ xs) = if task == x then xs else x ∷ list_del task xs

abbrev pub list_empty : List ℕ → Bool
list_empty [] = true
list_empty (_ ∷ _) = false

-- The last part of `__MutexLock`, after the loop
unfoldable pub leave_queue : ℕ → Mutex → Mutex
leave_queue task m =
    let rest = list_del task m.wait_list in
    record m { wait_list = rest; count = if list_empty rest then 0 else m.count }

abbrev pub set_owner : ℕ → Mutex → Mutex
set_owner task m = record m { owner = some task }

-- The first part of `__MutexUnlock`: does no task wait?
unfoldable pub unlock_begin : Mutex → Bool × Mutex
unlock_begin m = let count = (m.count + 1) % 2 ^ 32 in (count == 1, record m { count = count })

abbrev pub first_waiter : List ℕ → Option ℕ
first_waiter [] = none
first_waiter (task ∷ _) = some task

-- The rest of `__MutexUnlock`, and the task it wakes
unfoldable pub unlock_waiting : Mutex → Option ℕ × Mutex
unlock_waiting m = (
  first_waiter m.wait_list,
  record m { count = if ltb 1 m.count && ltb m.count (2 ^ 31) then 1 else m.count },
)

abbrev pub clear_owner : Mutex → Mutex
clear_owner m = record m { owner = none }

-- `MutexTryLock`, whose two parts other tasks can come between: the decrement and the test
abbrev pub try_begin : Mutex → Mutex
try_begin m = record m { count = (m.count + 2 ^ 32 - 1) % 2 ^ 32 }

abbrev pub try_end : Mutex → Bool
try_end m = ltb m.count (2 ^ 31)

pub mutex_is_locked : Mutex → Bool
mutex_is_locked m = m.count == 0 || not (ltb m.count (2 ^ 31))

-- Where a task is in `MutexLock` and `MutexUnlock`: outside; before it joins the queue; before it
-- exchanges the count; blocked in `Schedule`; past the loop; before it sets the owner; in the
-- critical section; in `__MutexUnlock` with tasks waiting; before it clears the owner
pub data Phase : Type 0 where
  outside queueing trying asleep leaving taken holding waking clearing : Phase

pub record System : Type 0 where
  pub mutex : Mutex
  pub phase : ℕ → Phase

abbrev pub move : ℕ → Phase → Mutex → System → System
move task p m s = record { mutex = m; phase = λ (t : ℕ). if task == t then p else s.phase t }

unfoldable pub lock_step : ℕ → System → System
lock_step task s =
    let (free, m) = lock_begin s.mutex in move task (if free then taken else queueing) m s

unfoldable pub queue_step : ℕ → System → System
queue_step task s = move task trying (enqueue task s.mutex) s

unfoldable pub exchange_step : ℕ → System → System
exchange_step task s =
    let (free, m) = exchange s.mutex in move task (if free then leaving else asleep) m s

unfoldable pub leave_step : ℕ → System → System
leave_step task s = move task taken (leave_queue task s.mutex) s

unfoldable pub own_step : ℕ → System → System
own_step task s = move task holding (set_owner task s.mutex) s

unfoldable pub unlock_step : ℕ → System → System
unlock_step task s =
    let (free, m) = unlock_begin s.mutex in move task (if free then clearing else waking) m s

-- `TaskWakeUp` of a task that is blocked in `MutexLock`
abbrev pub wake : ℕ → (ℕ → Phase) → ℕ → Phase
wake task phase t = if task == t then woken (phase t) else phase t
  where
    woken : Phase → Phase
    woken asleep = trying
    woken p = p

abbrev pub wake_first : Option ℕ → (ℕ → Phase) → ℕ → Phase
wake_first none phase = phase
wake_first (some task) phase = wake task phase

unfoldable pub waking_step : ℕ → System → System
waking_step task s =
    let (waiter, m) = unlock_waiting s.mutex in
    record { mutex = m; phase = wake_first waiter (move task clearing m s).phase }

unfoldable pub clear_step : ℕ → System → System
clear_step task s = move task outside (clear_owner s.mutex) s

-- What a task can do next; `wakes` is a wake-up by anything else, such as a signal.
pub data Step : System → System → Type 0 where
  locks : (s : System) (t : ℕ) → s.phase t ≡ outside → Step s (lock_step t s)
  queues : (s : System) (t : ℕ) → s.phase t ≡ queueing → Step s (queue_step t s)
  exchanges : (s : System) (t : ℕ) → s.phase t ≡ trying → Step s (exchange_step t s)
  leaves : (s : System) (t : ℕ) → s.phase t ≡ leaving → Step s (leave_step t s)
  owns : (s : System) (t : ℕ) → s.phase t ≡ taken → Step s (own_step t s)
  unlocks : (s : System) (t : ℕ) → s.phase t ≡ holding → Step s (unlock_step t s)
  hands_on : (s : System) (t : ℕ) → s.phase t ≡ waking → Step s (waking_step t s)
  clears : (s : System) (t : ℕ) → s.phase t ≡ clearing → Step s (clear_step t s)
  wakes : (s : System) (t : ℕ) → Step s (record s { phase = wake t s.phase })

-- `n` steps
pub data Reaches (s : System) : ℕ → System → Type 0 where
  here : Reaches s 0 s
  next : {n : ℕ} {t u : System} → Reaches s n t → Step t u → Reaches s (suc n) u

abbrev pub initial : System
initial = record { mutex = mutex_init; phase = λ (t : ℕ). outside }

-- The task has the mutex.
abbrev pub has_mutex : Phase → Bool
has_mutex leaving = true
has_mutex taken = true
has_mutex holding = true
has_mutex _ = false
