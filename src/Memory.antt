-- ===== src/Memory.antt =====
-- Byte-addressed memory: what C pointers into `char` and `unsigned char` arrays read and write.
-- An address is a number and every address holds a byte; which of them an object owns is the
-- business of the statements.
use xbook.Prelude.{ℕ, ◌<◌, ◌==◌, if◌then◌else◌}

abbrev pub Memory : Type 0
Memory = ℕ → ℕ

-- `*p = v`
abbrev pub store : Memory → ℕ → ℕ → Memory
store m p v a = if p == a then v else m a

-- Every cell holds a byte.
abbrev pub AreBytes : Memory → Type 0
AreBytes m = (a : ℕ) → m a < 256
