-- ===== src/Scheduler/Rounds.antt =====
-- kernel/schedule.c: the order in which tasks that only run out of their time get the processor.
use xbook.Prelude.{
  ℕ, zero, suc, ◌≡◌, refl, ◌∙◌, true, List, [], ◌∷◌, ◌++◌, append_assoc, length, arith,
}
use xbook.Scheduler.{Scheduler, is_running, requeue, schedule}
use xbook.Scheduler.Invariant.{IsScheduled, IsLeaving, schedule-IsScheduled}

-- `n` times the time of the current task runs out and `Schedule` is called.
pub schedules : ℕ → Scheduler → Scheduler
schedules zero s = s
schedules (suc n) s = schedules n (schedule s)

leaving : (s : Scheduler) → IsScheduled s → IsLeaving s
leaving s h = record { queueing = h.queueing; others = λ t ne. ground (arith, h.one t) }

schedule_lem :
    (s : Scheduler) (t : ℕ) (rest : List ℕ)
    → IsScheduled s
    → s.ready_list ≡ t ∷ rest
    → ((schedule s).current ≡ t) × ((schedule s).ready_list ≡ rest ++ (s.current ∷ []))
unfolding schedule requeue
schedule_lem s t rest h e =
    let r : is_running (s.task s.current).status ≡ true = ground (arith, h.one s.current) in
    rw (r, e) (refl, refl)

-- In an orderly scheduler, the task that `xs` stand before in the ready queue runs after
-- `length xs + 1` calls of `Schedule` by tasks whose time has run out.
pub round_robin :
    (xs ys : List ℕ) (t : ℕ) (s : Scheduler)
    → IsScheduled s
    → s.ready_list ≡ xs ++ (t ∷ ys)
    → (schedules (suc (length xs)) s).current ≡ t
unfolding schedules
round_robin [] ys t s h e = (schedule_lem s t ys h e).0
round_robin (x ∷ xs) ys t s h e =
    round_robin xs (ys ++ (s.current ∷ [])) t (schedule s) (schedule-IsScheduled s (leaving s h))
      ((schedule_lem s x (xs ++ (t ∷ ys)) h e).1 ∙ append_assoc xs (t ∷ ys) (s.current ∷ []))
