-- ===== src/Strings/Moves.antt =====
-- `memcpy` and `memmove`: the whole memory afterwards, overlapping blocks included.
use xbook.Prelude.{
  ℕ, zero, suc, ◌+◌, ◌-◌, ◌≤◌, ◌<◌, ◌≡◌, ap, ◌∙◌, ◌⊎◌, inl, inr, ◌&&◌, ◌||◌, Bool-cases, ltb, leb,
  if◌then◌else◌, arith,
}
use xbook.Memory.{Memory, store}
use xbook.Strings.{memcpy, copy_down, memmove}

shift : (m : Memory) (dst src a : ℕ) → dst < a → m (src + 1 + (a - (dst + 1))) ≡ m (src + (a - dst))
shift m dst src a p = ap m (omega arith)

start : (m : Memory) (dst src a : ℕ) → dst ≡ a → m src ≡ m (src + (a - dst))
start m dst src a p = ap m (omega arith)

last : (m : Memory) (dst src count a : ℕ) → a ≡ dst + count → m (src + count) ≡ m (src + (a - dst))
last m dst src count a p = ap m (omega arith)

-- Where the target does not stand inside the source behind its start, `memcpy` copies the block as
-- it stood and changes nothing else.
pub memcpy_lem :
    (m : Memory) (dst src size a : ℕ)
    → (dst ≤ src) ⊎ (src + size ≤ dst)
    → memcpy m dst src size a
      ≡ (if leb dst a && ltb a (dst + size) then m (src + (a - dst)) else m a)
unfolding memcpy
memcpy_lem m dst src zero a h = ground arith
memcpy_lem m dst src (suc size) a h =
    memcpy_lem (store m dst (m src)) (dst + 1) (src + 1) size a (omega arith)
    ∙ ground (arith, λ (p : dst < a). shift m dst src a p, λ (p : dst ≡ a). start m dst src a p)

copy_down_lem :
    (m : Memory) (dst src count a : ℕ)
    → src ≤ dst
    → copy_down m dst src count a
      ≡ (if leb dst a && ltb a (dst + count) then m (src + (a - dst)) else m a)
unfolding copy_down
copy_down_lem m dst src zero a h = ground arith
copy_down_lem m dst src (suc count) a h =
    copy_down_lem (store m (dst + count) (m (src + count))) dst src count a h
    ∙ ground (arith, λ (p : a ≡ dst + count). last m dst src count a p)

-- `memmove` copies the block as it stood, however the two overlap, and changes nothing else.
pub memmove_lem :
    (m : Memory) (dst src count a : ℕ)
    → memmove m dst src count a
      ≡ (if leb dst a && ltb a (dst + count) then m (src + (a - dst)) else m a)
unfolding memmove
memmove_lem m dst src count a = elim (Bool-cases (leb dst src || leb (src + count) dst)) [
  | inl up ↦ rw up (memcpy_lem m dst src count a (ground arith))
  | inr down ↦ rw down (copy_down_lem m dst src count a (ground arith))
]
