-- ===== src/Scheduler/Operations.antt =====
-- kernel/schedule.c, kernel/task.c, kernel/sleep_wakeup.c, drivers/clock.c: what blocks, wakes,
-- yields and preempts keeps the scheduler in order.
use xbook.Prelude.{ℕ, ◌≡◌, ◌≢◌, ◌⊎◌, inl, inr, true, false, ◌||◌, ◌==◌, Bool-cases, arith}
use xbook.Task.{
  Status, blocked, mem, is_blocked, is_stopped, is_waiting, task_unblock, task_wake_up,
}
use xbook.Task.Wake.{is_ready}
use xbook.Scheduler.{
  Scheduler, is_blocking, set_status, unblock, wake_up, task_block, task_yield,
  sched_softirq_handler,
}
use xbook.Scheduler.Queue.{mem-append, distinct-append}
use xbook.Scheduler.Invariant.{IsScheduled, IsLeaving, unblock-IsQueueing, schedule-IsScheduled}

pub wake_up-IsScheduled : (t : ℕ) (s : Scheduler) → IsScheduled s → IsScheduled (wake_up t s)
unfolding wake_up task_wake_up unblock task_unblock
wake_up-IsScheduled t s h =
    let q = h.queueing in
    elim (Bool-cases (is_blocked (s.task t).status || is_stopped (s.task t).status)) [
      | inl e ↦
          let asleep : (is_blocked (s.task t).status
                || (is_waiting (s.task t).status || is_stopped (s.task t).status))
              ≡ true =
            ground arith in
          let away : mem t s.ready_list ≡ false = ground (arith, q.queued t) in
          let name = q.named t in
          let (q', list) = unblock-IsQueueing t s asleep q in
          rw e (record {
            queueing = q';
            one = λ u. rw (asleep, name, away) (ground (arith, h.one u, h.one t));
          })
      | inr e ↦ rw e (record {
        queueing = record {
          named = λ u. ground (arith, q.named u, q.named t);
          queued = λ u. ground (arith, q.queued u, q.queued t);
          once = q.once;
          idle = ground (arith, q.idle);
          sound = q.sound;
        };
        one = λ u. ground (arith, h.one u, h.one t);
      })
    ]

-- A task about to leave the processor in a state that is neither running nor ready
leave-IsLeaving :
    (state : Status) (s : Scheduler)
    → (state ≡ blocked) ⊎ ((s.current ≢ s.main_thread) × (is_blocking state ≡ true))
    → IsScheduled s
    → IsLeaving (set_status s.current state s)
leave-IsLeaving state s ok h =
    let q = h.queueing in
    let away : mem s.current s.ready_list ≡ false =
      ground (arith, q.queued s.current, h.one s.current) in
    let apart : is_ready state ≡ false = ground (arith, ok) in
    record {
      queueing = record {
        named = λ u. ground (arith, q.named u, q.named s.current);
        queued = λ u. ground (arith, q.queued u);
        once = q.once;
        idle = ground (arith, q.idle, ok);
        sound = q.sound;
      };
      others = λ u ne. ground (arith, h.one u);
    }

blocking : (state : Status) → is_blocking state ≡ true → is_ready state ≡ false
blocking state e = ground arith

pub task_block-IsScheduled :
    (state : Status) (s : Scheduler)
    → (state ≡ blocked) ⊎ ((s.current ≢ s.main_thread) × (is_blocking state ≡ true))
    → IsScheduled s
    → IsScheduled (task_block state s)
unfolding task_block
task_block-IsScheduled state s ok h =
    let e : is_blocking state ≡ true = ground (arith, ok) in
    rw e (schedule-IsScheduled (set_status s.current state s) (leave-IsLeaving state s ok h))

task_yield-IsScheduled : (s : Scheduler) → IsScheduled s → IsScheduled (task_yield s)
unfolding task_yield
task_yield-IsScheduled s h =
    let q = h.queueing in
    let away : mem s.current s.ready_list ≡ false =
      ground (arith, q.queued s.current, h.one s.current) in
    rw away (
      schedule-IsScheduled _ (record {
        queueing = record {
          named = λ u. ground (arith, q.named u, q.named s.current);
          queued = λ u. rw mem-append (ground (arith, q.queued u));
          once = distinct-append s.current s.ready_list q.once away;
          idle = ground (arith, q.idle);
          sound = q.sound;
        };
        others = λ u ne. ground (arith, h.one u);
      }))

sched_softirq_handler-IsScheduled :
    (s : Scheduler) → IsScheduled s → IsScheduled (sched_softirq_handler s)
unfolding sched_softirq_handler
sched_softirq_handler-IsScheduled s h =
    let q = h.queueing in
    elim (Bool-cases ((s.task s.current).ticks == 0)) [
      | inl e ↦ rw e (
          schedule-IsScheduled s
            (record { queueing = q; others = λ u ne. ground (arith, h.one u) }))
      | inr e ↦ rw e (record {
        queueing = record {
          named = λ u. ground (arith, q.named u, q.named s.current);
          queued = λ u. ground (arith, q.queued u, q.queued s.current);
          once = q.once;
          idle = ground (arith, q.idle);
          sound = q.sound;
        };
        one = λ u. ground (arith, h.one u, h.one s.current);
      })
    ]

-- In an orderly scheduler exactly the current task runs, the ready queue holds each ready task once,
-- the idle task runs, is ready or is blocked, and no assertion has failed. It stays orderly when any
-- task is woken up, the current one yields, a tick passes, and when the current task blocks in one of
-- the states that `TaskBlock` allows, which for the idle task is being blocked.
pub scheduler-IsScheduled :
    (s : Scheduler) (t : ℕ) (state : Status)
    → (state ≡ blocked) ⊎ ((s.current ≢ s.main_thread) × (is_blocking state ≡ true))
    → IsScheduled s
    → IsScheduled (wake_up t s)
      × IsScheduled (task_yield s)
      × IsScheduled (sched_softirq_handler s)
      × IsScheduled (task_block state s)
scheduler-IsScheduled s t state ok h = (
  wake_up-IsScheduled t s h,
  task_yield-IsScheduled s h,
  sched_softirq_handler-IsScheduled s h,
  task_block-IsScheduled state s ok h,
)
