-- ===== src/IoQueue/Units.antt =====
-- Units of bytes in memory.
use native.Mathlib.Nat.{mul-le-mul_left, mul-suc}
use native.Mathlib.Decide.{dec_lt}
use xbook.Prelude.{
  ℕ, zero, suc, ◌+◌, ◌*◌, ◌/◌, ◌%◌, ◌≤◌, ◌<◌, ◌≡◌, ◌≢◌, refl, ◌∙◌, ◌⊎◌, inl, inr, arith,
}
use xbook.Memory.{Memory, store}
use xbook.IoQueue.{copy_in, copy_out}

-- Writing a unit changes no byte outside it.
copy_in_outside :
    (count : ℕ) (m : Memory) (head word a : ℕ)
    → (a < head) ⊎ (head + count ≤ a)
    → copy_in count m head word a ≡ m a
unfolding copy_in
copy_in_outside zero m head word a out = refl
copy_in_outside (suc count) m head word a out =
    copy_in_outside count (store m head (word % 256)) (head + 1) (word / 256) a (omega arith)
    ∙ ground arith

-- Reading a unit looks at no other byte.
copy_out_same :
    (count : ℕ) (m m' : Memory) (tail junk : ℕ)
    → ((a : ℕ) → tail ≤ a → a < tail + count → m' a ≡ m a)
    → copy_out count m' tail junk ≡ copy_out count m tail junk
unfolding copy_out
copy_out_same zero m m' tail junk same = refl
copy_out_same (suc count) m m' tail junk same = omega (
  arith,
  same tail (omega arith) (omega arith),
  copy_out_same count m m' (tail + 1) (junk / 256) (λ a p q. same a (omega arith) (omega arith)),
)

-- A unit that stands apart from the one written reads as before.
pub copy_out_apart :
    (count : ℕ) (m : Memory) (head word tail junk : ℕ)
    → (tail + count ≤ head) ⊎ (head + count ≤ tail)
    → copy_out count (copy_in count m head word) tail junk ≡ copy_out count m tail junk
copy_out_apart count m head word tail junk apart =
    copy_out_same count m (copy_in count m head word) tail junk
      (λ a p q. copy_in_outside count m head word a (omega arith))

-- The lowest `count` bytes of `word` below the others of `junk`.
unfoldable pub splice : (count word junk : ℕ) → ℕ
splice zero word junk = junk
splice (suc count) word junk = word % 256 + 256 * splice count (word / 256) (junk / 256)

-- The unit that was written reads as its bytes, below those of what it is read over.
pub copy_out_here :
    (count : ℕ) (m : Memory) (p word junk : ℕ)
    → copy_out count (copy_in count m p word) p junk ≡ splice count word junk
unfolding copy_in copy_out splice
copy_out_here zero m p word junk = refl
copy_out_here (suc count) m p word junk = omega (
  arith,
  copy_in_outside count (store m p (word % 256)) (p + 1) (word / 256) p (inl (omega arith)),
  first,
  copy_out_here count (store m p (word % 256)) (p + 1) (word / 256) (junk / 256),
)
  where
    first : store m p (word % 256) p ≡ word % 256
    first = ground arith

-- Two units of the ring stand apart.
pub units_apart :
    (base count i j : ℕ)
    → i ≢ j
    → (base + count * i + count ≤ base + count * j) ⊎ (base + count * j + count ≤ base + count * i)
units_apart base count i j ne = elim (dec_lt i j) [
  | yes below ↦ inl (omega (arith, mul-le-mul_left count below, mul-suc count i))
  | no above ↦
      let later : suc j ≤ i = omega arith in
      inr (omega (arith, mul-le-mul_left count later, mul-suc count j))
]
