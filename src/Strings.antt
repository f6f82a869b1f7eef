-- ===== src/Strings.antt =====
-- share/string.c over memory: the block functions, whose loops recur on the count.
pub mod Blocks
pub mod Moves
mod Tests
use xbook.Prelude.{
  ℕ, zero, suc, ◌+◌, ◌-◌, ◌*◌, ◌/◌, ◌%◌, ◌≤◌, Bool, ◌||◌, ltb, leb, ◌==◌, if◌then◌else◌,
}
use xbook.Memory.{Memory, store}

-- `memset`, `while (size > 0) { *s++ = value; --size; }`
pub memset : Memory → ℕ → ℕ → ℕ → Memory
memset m s value zero = m
memset m s value (suc size) = memset (store m s value) (s + 1) value size

-- `memcpy`, upwards byte by byte
pub memcpy : Memory → ℕ → ℕ → ℕ → Memory
memcpy m dst src zero = m
memcpy m dst src (suc size) = memcpy (store m dst (m src)) (dst + 1) (src + 1) size

-- the loop of `memmove` that goes down: `count` bytes, the first of them at `dst`, `src`
pub copy_down : Memory → ℕ → ℕ → ℕ → Memory
copy_down m dst src zero = m
copy_down m dst src (suc count) = copy_down (store m (dst + count) (m (src + count))) dst src count

-- `memmove`: up where the target does not stand inside the source behind its start, else down
pub memmove : Memory → ℕ → ℕ → ℕ → Memory
memmove m dst src count =
    if leb dst src || leb (src + count) dst
    then memcpy m dst src count
    else copy_down m dst src count
