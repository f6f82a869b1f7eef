-- ===== src/Bofs/Sectors.antt =====
-- fs/bofs/bitmap.c, and `AllocOneSector` and `FreeOneSector` of fs/bofs/inode.c.
use xbook.Prelude.{
  ℕ, zero, suc, ◌+◌, ◌-◌, ◌*◌, ◌/◌, ◌%◌, ◌^◌, Bool, Option, none, some, ◌==◌, if◌then◌else◌,
}
use xbook.Memory.{Memory}
use xbook.Bitmap.{Bitmap, set, scan}
use xbook.Bofs.{Block, SuperBlock, Volume, Action, block_write}

-- `enum BOFS_BM_TYPE`
pub data BmType : Type 0 where
  sector_bits inode_bits : BmType

abbrev pub bitmap_of : SuperBlock → BmType → Bitmap
bitmap_of sb sector_bits = sb.sector_bitmap
bitmap_of sb inode_bits = sb.inode_bitmap

abbrev pub bitmap_lba : SuperBlock → BmType → ℕ
bitmap_lba sb sector_bits = sb.sector_bitmap_lba
bitmap_lba sb inode_bits = sb.inode_bitmap_lba

-- The loop of `BOFS_AllocBitmap`: sets `counts` bits from `idx` on.
unfoldable pub set_bits : ℕ → Memory → Bitmap → ℕ → Memory
set_bits zero m b idx = m
set_bits (suc counts) m b idx = set_bits counts (set m b idx 1) b (idx + 1)

unfoldable pub alloc_bitmap : SuperBlock → BmType → ℕ → Memory → Option ℕ × Memory
alloc_bitmap sb kind counts m = elim (scan m (bitmap_of sb kind) counts) [
  | none ↦ (none, m)
  | some idx ↦ (some idx, set_bits counts m (bitmap_of sb kind) idx)
]

unfoldable pub free_bitmap : SuperBlock → BmType → ℕ → Memory → Option ℕ × Memory
free_bitmap sb kind idx m =
    if idx == 2 ^ 32 - 1 then (none, m) else (some idx, set m (bitmap_of sb kind) idx 0)

-- The little-endian words of memory from an address on
abbrev pub words_at : Memory → ℕ → Block
words_at m a j =
    m (a + 4 * j)
    + 2 ^ 8 * m (a + 4 * j + 1)
    + 2 ^ 16 * m (a + 4 * j + 2)
    + 2 ^ 24 * m (a + 4 * j + 3)

-- 512 is SECTOR_SIZE.
unfoldable pub sync_bitmap : SuperBlock → (ℕ → Bool) → BmType → ℕ → Action (Unit {0})
sync_bitmap sb works kind idx v =
    let offset_sector = idx / (8 * 512) in
    block_write works ((bitmap_lba sb kind + offset_sector) % 2 ^ 32)
      (words_at v.memory ((bitmap_of sb kind).bits + offset_sector * 512)) v

abbrev pub idx_to_lba : SuperBlock → ℕ → ℕ
idx_to_lba sb idx = (sb.data_start_lba + idx) % 2 ^ 32

abbrev pub lba_to_idx : SuperBlock → ℕ → ℕ
lba_to_idx sb lba = (lba + 2 ^ 32 - sb.data_start_lba) % 2 ^ 32

-- How `AllocOneSector` returns: -1 with `*data` as it was, -1 with `*data` set to a sector that
-- was not cleared, or 0 with `*data` set.
pub data Grant : Type 0 where
  none_left : Grant
  uncleared ready : ℕ → Grant

abbrev pub clear_sector : (ℕ → Bool) → ℕ → Volume → Grant × Volume
clear_sector works lba v =
    if works v.calls
    then if works (v.calls + 1)
      then (
        ready lba,
        record v {
          disk = λ (l : ℕ). if lba == l then (λ (_ : ℕ). 0) else v.disk l;
          calls = v.calls + 2;
        },
      )
      else (uncleared lba, record v { calls = v.calls + 2 })
    else (uncleared lba, record v { calls = v.calls + 1 })

unfoldable pub alloc_one_sector : SuperBlock → (ℕ → Bool) → Volume → Grant × Volume
alloc_one_sector sb works v =
    let (found, m) = alloc_bitmap sb sector_bits 1 v.memory in
    elim found [
      | none ↦ (none_left, v)
      | some idx ↦
          clear_sector works (idx_to_lba sb idx)
            (sync_bitmap sb works sector_bits idx (record v { memory = m })).1
    ]

-- Always returns 0.
unfoldable pub free_one_sector : SuperBlock → (ℕ → Bool) → ℕ → Volume → Volume
free_one_sector sb works lba v =
    let idx = lba_to_idx sb lba in
    (sync_bitmap sb works sector_bits idx
      (record v { memory = (free_bitmap sb sector_bits idx v.memory).1 })).1
