-- ===== src/Scheduler/Invariant.antt =====
-- kernel/schedule.c: one task runs, and the ready queue holds the tasks that are ready.
use xbook.Prelude.{
  ℕ, ◌≡◌, ◌≢◌, inl, inr, refl, sym, ◌∙◌, ap, Bool, true, false, ◌||◌, List, [], ◌∷◌, ◌==◌,
  Bool-cases, arith,
}
use xbook.Task.{Status, mem, is_blocked, is_stopped, is_waiting, task_unblock}
use xbook.Task.Wake.{is_ready}
use xbook.Scheduler.{Scheduler, is_running, unblock, requeue, wake_idle, switch_to, schedule}
use xbook.Scheduler.Queue.{distinct, mem-append, distinct-append}

-- The idle task runs, is ready or is blocked.
abbrev pub is_at_hand : Status → Bool
is_at_hand status = is_running status || (is_ready status || is_blocked status)

-- Each task stands under its pid, the ready queue holds exactly the tasks that are ready, each once,
-- the idle task is at hand, and no assertion has failed.
pub record IsQueueing (s : Scheduler) : Type 0 where
  pub named : (t : ℕ) → (s.task t).pid ≡ t
  pub queued : (t : ℕ) → mem t s.ready_list ≡ is_ready (s.task t).status
  pub once : distinct s.ready_list ≡ true
  pub idle : is_at_hand (s.task s.main_thread).status ≡ true
  pub sound : s.panicked ≡ false

-- And exactly the current task runs.
pub record IsScheduled (s : Scheduler) : Type 0 where
  pub queueing : IsQueueing s
  pub one : (t : ℕ) → is_running (s.task t).status ≡ (t == s.current)

-- Before `Schedule` no other task runs.
pub record IsLeaving (s : Scheduler) : Type 0 where
  pub queueing : IsQueueing s
  pub others : (t : ℕ) → t ≢ s.current → is_running (s.task t).status ≡ false

record IsVacant (s : Scheduler) : Type 0 where
  queueing : IsQueueing s
  none_runs : (t : ℕ) → is_running (s.task t).status ≡ false

requeue-IsVacant : (s : Scheduler) → IsLeaving s → IsVacant (requeue s)
unfolding requeue
requeue-IsVacant s h = elim (Bool-cases (is_running (s.task s.current).status)) [
  | inl e ↦
      let q = h.queueing in
      let away : mem s.current s.ready_list ≡ false = ground (arith, q.queued s.current) in
      rw e (record {
        queueing = record {
          named = λ t. ground (arith, q.named t, q.named s.current);
          queued = λ t. rw mem-append (ground (arith, q.queued t, ap s.task));
          once = distinct-append s.current s.ready_list q.once away;
          idle = ground (arith, q.idle);
          sound = q.sound;
        };
        none_runs = λ t. ground (arith, h.others t);
      })
  | inr e ↦ rw e (record {
    queueing = h.queueing;
    none_runs = λ t. ground (arith, h.others t, ap (λ (u : ℕ). is_running (s.task u).status));
  })
]

-- `TaskUnblock` of a task that is blocked, waiting or stopped
pub unblock-IsQueueing :
    (t : ℕ) (s : Scheduler)
    → (is_blocked (s.task t).status
        || (is_waiting (s.task t).status || is_stopped (s.task t).status))
      ≡ true
    → IsQueueing s
    → IsQueueing (unblock t s) × ((unblock t s).ready_list ≡ t ∷ s.ready_list)
unfolding unblock task_unblock
unblock-IsQueueing t s asleep q =
    let e = q.named t in
    let away : mem t s.ready_list ≡ false = ground (arith, q.queued t) in
    rw (asleep, e, away)
      (
        record {
          named = λ u. ground (arith, q.named u, q.named t);
          queued = λ u. ground (arith, q.queued u);
          once = rw away (q.once);
          idle = ground (arith, q.idle);
          sound = q.sound;
        },
        refl,
      )

switch_to-IsScheduled :
    (s : Scheduler) (ts : List ℕ)
    → s.ready_list ≡ ts
    → ts ≢ []
    → IsVacant s
    → IsScheduled (switch_to ts s)
switch_to-IsScheduled s [] e some_there h = absurd (some_there refl)
switch_to-IsScheduled s (t ∷ rest) e some_there h =
    let q = h.queueing in
    let once : distinct (t ∷ rest) ≡ true = ap distinct (sym e) ∙ q.once in
    let queued : (u : ℕ) → mem u (t ∷ rest) ≡ is_ready (s.task u).status =
      λ u. ap (mem u) (sym e) ∙ q.queued u in
    record {
      queueing = record {
        named = λ u. ground (arith, q.named u, q.named t);
        queued = λ u. ground (arith, queued u);
        once = ground arith;
        idle = ground (arith, q.idle);
        sound = q.sound;
      };
      one = λ u. ground (arith, h.none_runs u);
    }

wake_idle-IsVacant :
    (s : Scheduler) (ts : List ℕ)
    → s.ready_list ≡ ts
    → IsVacant s
    → IsVacant (wake_idle ts s) × ((wake_idle ts s).ready_list ≢ [])
unfolding unblock task_unblock
wake_idle-IsVacant s [] e h =
    let q = h.queueing in
    let m = s.main_thread in
    let empty : mem m s.ready_list ≡ false = ap (mem m) e in
    let asleep : (is_blocked (s.task m).status
          || (is_waiting (s.task m).status || is_stopped (s.task m).status))
        ≡ true =
      ground (arith, q.idle, q.queued m, h.none_runs m) in
    let (q', list) = unblock-IsQueueing m s asleep q in
    (
      record {
        queueing = q';
        none_runs = λ u. rw asleep (ground (arith, h.none_runs u, empty, q.named m));
      },
      λ e'. let c : m ∷ s.ready_list ≡ [] = sym list ∙ e' in cc,
    )
wake_idle-IsVacant s (t ∷ rest) e h = (h, λ e'. let c : t ∷ rest ≡ [] = sym e ∙ e' in cc)

-- After `Schedule` one task runs.
pub schedule-IsScheduled : (s : Scheduler) → IsLeaving s → IsScheduled (schedule s)
unfolding schedule
schedule-IsScheduled s h =
    let v = requeue-IsVacant s h in
    let (w, some_there) = wake_idle-IsVacant (requeue s) (requeue s).ready_list refl v in
    let s' = wake_idle (requeue s).ready_list (requeue s) in
    switch_to-IsScheduled s' s'.ready_list refl some_there w
