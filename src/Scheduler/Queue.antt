-- ===== src/Scheduler/Queue.antt =====
-- kernel/schedule.c: the ready queue without repetitions.
use xbook.Prelude.{
  ℕ, ◌≡◌, refl, Bool, true, false, not, ◌&&◌, ◌||◌, List, [], ◌∷◌, ◌++◌, ◌==◌, arith,
}
use xbook.Task.{mem}

-- No task stands in the queue twice.
abbrev pub distinct : List ℕ → Bool
distinct [] = true
distinct (x ∷ xs) = not (mem x xs) && distinct xs

pub mem-append : (t u : ℕ) (xs : List ℕ) → mem t (xs ++ (u ∷ [])) ≡ (mem t xs || (t == u))
mem-append t u [] = ground arith
mem-append t u (x ∷ xs) = ground (arith, mem-append t u xs)

pub distinct-append :
    (u : ℕ) (xs : List ℕ) → distinct xs ≡ true → mem u xs ≡ false → distinct (xs ++ (u ∷ [])) ≡ true
distinct-append u [] d m = refl
distinct-append u (x ∷ xs) d m = ground (arith, distinct-append u xs, mem-append x u xs)
