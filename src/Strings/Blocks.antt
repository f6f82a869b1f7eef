-- ===== src/Strings/Blocks.antt =====
-- `memset`: the whole memory afterwards.
use xbook.Prelude.{ℕ, zero, suc, ◌+◌, ◌≡◌, ◌∙◌, ◌&&◌, ltb, leb, if◌then◌else◌, arith}
use xbook.Memory.{Memory, store}
use xbook.Strings.{memset}

-- The `size` bytes from `s` hold the value, and no other byte changes.
pub memset_lem :
    (m : Memory) (s value size a : ℕ)
    → memset m s value size a ≡ (if leb s a && ltb a (s + size) then value else m a)
unfolding memset
memset_lem m s value zero a = ground arith
memset_lem m s value (suc size) a = memset_lem (store m s value) (s + 1) value size a ∙ ground arith
