-- ===== src/Bofs/Layout.antt =====
-- fs/bofs/super_block.c: how `BOFS_MakeFS` lays a volume out.
use xbook.Prelude.{
  refl, Bool, true, false, ◌==◌, ◌≡◌, ℕ, ◌+◌, ◌-◌, ◌*◌, ◌/◌, ◌%◌, ◌^◌, ◌≤◌, ◌<◌, arith,
}
use xbook.Memory.{AreBytes}
use xbook.Bofs.{SuperBlock, Volume}
use xbook.Bofs.Sectors.{idx_to_lba, sync_bitmap, sector_bits, words_at}
use xbook.Bofs.Mounted.{IsMounted}

-- `DIV_ROUND_UP`, in 32 bits as everything below
abbrev pub div_round_up : ℕ → ℕ → ℕ
div_round_up x step = (x + step - 1) % 2 ^ 32 / step

-- 128 is the size of an inode. The bitmaps are loaded when the volume is mounted.
unfoldable pub make_super_block : ℕ → ℕ → ℕ → ℕ → SuperBlock
make_super_block start_sector total_sectors block_size inode_nr =
    let bitmap_lba = (start_sector + 2) % 2 ^ 32 in
    let bitmap_sectors = div_round_up (total_sectors / 8) block_size in
    let inode_bitmap_sectors = div_round_up (inode_nr / 8) block_size in
    let table_sectors = div_round_up (inode_nr * 128 % 2 ^ 32) block_size in
    let inode_bitmap_lba = (bitmap_lba + bitmap_sectors) % 2 ^ 32 in
    let table_lba = (inode_bitmap_lba + inode_bitmap_sectors) % 2 ^ 32 in
    record {
      total_sectors = total_sectors;
      super_block_lba = (start_sector + 1) % 2 ^ 32;
      sector_bitmap_lba = bitmap_lba;
      sector_bitmap_sectors = bitmap_sectors;
      inode_bitmap_lba = inode_bitmap_lba;
      inode_bitmap_sectors = inode_bitmap_sectors;
      inode_table_lba = table_lba;
      inode_table_sectors = table_sectors;
      data_start_lba = (table_lba + table_sectors) % 2 ^ 32;
      inode_nr_in_sector = block_size / 128;
      max_inodes = inode_nr;
      block_size = block_size;
      sector_bitmap = record { bytes_len = total_sectors / 8; bits = 0 };
      inode_bitmap = record { bytes_len = inode_nr / 8; bits = 0 };
    }

-- With blocks of 1024 bytes, at least 8 inodes and fewer than 2^25 - 8, so that the size of the inode
-- table fits 32 bits, fewer than 1024 blocks for each inode, and the first block and the blocks
-- together below 2^30, the parts of a volume lie so that every
-- operation on files can rely on it: the blocks that syncing the sector bitmap and any inode of the
-- volume writes lie before the data, and no sector of the bitmap wraps around.
pub make_super_block-IsMounted :
    (start_sector total_sectors inode_nr : ℕ) (v : Volume)
    → 8 ≤ inode_nr
    → total_sectors < 1024 * inode_nr
    → start_sector + total_sectors < 2 ^ 30
    → inode_nr < 2 ^ 25 - 8
    → v.inode.id < inode_nr
    → AreBytes v.memory
    → IsMounted (make_super_block start_sector total_sectors 1024 inode_nr) v
unfolding make_super_block
make_super_block-IsMounted start_sector total_sectors inode_nr v some_inodes few small table id
      bytes =
    record {
      starts = omega arith;
      few = omega arith;
      fits = omega arith;
      bitmap_below = λ i lt. omega arith;
      inode_below = omega arith;
      are_bytes = bytes;
    }

-- The block that syncing the last bit writes
abbrev at : ℕ → ℕ → ℕ
at start_sector total_sectors =
    ((start_sector + 2) % 2 ^ 32 + (total_sectors / 8 * 8 - 1) / (8 * 512)) % 2 ^ 32

reached : (l : ℕ) → (l == l) ≡ true
reached l = ground arith

not_reached : (lba l : ℕ) → l < lba → (lba == l) ≡ false
not_reached lba l lt = ground arith

overrun :
    (start_sector total_sectors : ℕ)
    → 4104 ≤ total_sectors
    → start_sector + total_sectors < 2 ^ 30
    → (start_sector + 2) % 2 ^ 32 + div_round_up (total_sectors / 8) 1024
      ≤ at start_sector total_sectors
overrun start_sector total_sectors many small = omega arith

-- With blocks of 1024 bytes, on a volume of 4104 blocks or more with 64 inodes or more, and the bounds
-- under which no number of a block wraps around, syncing the last bit of the sector bitmap, where the
-- write succeeds, changes no block of the bitmap: it writes the bits to a block behind them. The
-- sector of that bit lies behind the end of the volume.
pub make_super_block_overruns :
    (start_sector total_sectors inode_nr : ℕ) (works : ℕ → Bool) (v : Volume)
    → 4104 ≤ total_sectors
    → 64 ≤ inode_nr
    → start_sector + total_sectors < 2 ^ 30
    → inode_nr < 2 ^ 25 - 8
    → works v.calls ≡ true
    → let sb = make_super_block start_sector total_sectors 1024 inode_nr in
      let last = sb.sector_bitmap.bytes_len * 8 - 1 in
      let v' = (sync_bitmap sb works sector_bits last v).1 in
      ((l j : ℕ)
        → sb.sector_bitmap_lba ≤ l
        → l < sb.sector_bitmap_lba + sb.sector_bitmap_sectors
        → v'.disk l j ≡ v.disk l j)
      × ((l : ℕ) × (sb.sector_bitmap_lba + sb.sector_bitmap_sectors ≤ l)
          × ((j : ℕ)
              → v'.disk l j ≡ words_at v.memory (sb.sector_bitmap.bits + last / 4096 * 512) j))
      × (start_sector + total_sectors ≤ idx_to_lba sb last)
unfolding make_super_block sync_bitmap
make_super_block_overruns start_sector total_sectors inode_nr works v many inodes small table good =
    let behind = overrun start_sector total_sectors many small in
    (
      λ l j low high.
          rw (sync_bitmap, good)
            (rw (not_reached (at start_sector total_sectors) l (omega (arith, behind, high))) refl),
      (
        at start_sector total_sectors,
        behind,
        λ j. rw (sync_bitmap, good) (rw (reached (at start_sector total_sectors)) refl),
      ),
      omega arith,
    )
