-- ===== src/Bofs/Freed.antt =====
-- fs/bofs/inode.c and fs/bofs/bitmap.c: what `PutBlockByBlockIndex` leaves of a file.
use mathlib.Core.Path.{subst}
use xbook.Prelude.{
  ℕ, ◌+◌, ◌-◌, ◌*◌, ◌/◌, ◌%◌, ◌≤◌, ◌<◌, ◌≡◌, refl, ◌∙◌, ap, Bool, true, false, ◌==◌, if◌then◌else◌,
  arith,
}
use xbook.Bitmap.{scan_test, set}
use xbook.Bitmap.Change.{scan_test-set, set-AreBytes}
use xbook.Bofs.{SuperBlock, Volume, done}
use xbook.Bofs.Sectors.{free_bitmap, lba_to_idx, free_one_sector}
use xbook.Bofs.Put.{put_block_in_inderect2, put_block_by_block_index}
use xbook.Bofs.Places.{slot, word_in, levels, IsPlace, sector_at, IsTree, place_of}
use xbook.Bofs.Mounted.{IsMounted, IsSame, sync_bitmap-IsSame}
use xbook.Bofs.Found.{above_start, same-IsMounted}

-- The sector is free, and nothing else that a file sees has changed.
pub record IsFreed (sb : SuperBlock) (v : Volume) (x : ℕ) (w : Volume) : Type 0 where
  pub bits :
      (i : ℕ)
      → scan_test w.memory sb.sector_bitmap i
        ≡ (if x - sb.data_start_lba == i then false else scan_test v.memory sb.sector_bitmap i)
  pub inode : w.inode ≡ v.inode
  pub disk : (l j : ℕ) → sb.data_start_lba ≤ l → w.disk l j ≡ v.disk l j
  pub mounted : IsMounted sb w

pub free_one_sector-IsFreed :
    (sb : SuperBlock) (works : ℕ → Bool) (v : Volume) (x : ℕ)
    → IsMounted sb v
    → sb.data_start_lba ≤ x
    → x < sb.data_start_lba + sb.sector_bitmap.bytes_len * 8
    → IsFreed sb v x (free_one_sector sb works x v)
unfolding free_one_sector free_bitmap
free_one_sector-IsFreed sb works v x m low high =
    let e : lba_to_idx sb x ≡ x - sb.data_start_lba = omega (arith, m.fits) in
    let e' : (x - sb.data_start_lba == 4294967295) ≡ false = ground (arith, m.few) in
    let s =
      sync_bitmap-IsSame sb works (x - sb.data_start_lba)
        (record v { memory = set v.memory sb.sector_bitmap (x - sb.data_start_lba) 0 })
        (m.bitmap_below (x - sb.data_start_lba) (omega arith)) in
    rw (free_one_sector, e, free_bitmap, e')
      (record {
        bits = λ i. rw (s.memory) (rw scan_test-set (ground arith));
        inode = s.inode;
        disk = s.disk;
        mounted = record {
          starts = m.starts;
          few = m.few;
          fits = m.fits;
          bitmap_below = m.bitmap_below;
          inode_below = rw (s.inode) (m.inode_below);
          are_bytes =
              rw (s.memory)
                (set-AreBytes v.memory sb.sector_bitmap (x - sb.data_start_lba) 0 m.are_bytes);
        };
      })

inderect2_frees :
    (sb : SuperBlock) (works : ℕ → Bool) (v : Volume) (base : ℕ)
    → ((n : ℕ) → works n ≡ true)
    → 0 < v.inode.blocks 13
    → 0 < v.disk (v.inode.blocks 13) (base / 256)
    → 0 < v.disk (v.disk (v.inode.blocks 13) (base / 256)) (base % 256)
    → put_block_in_inderect2 sb works base v ≡ (
      done tt,
      free_one_sector sb works
          (v.disk (v.disk (v.inode.blocks 13) (base / 256)) (base % 256))
          (record v { calls = v.calls + 4 }),
    )
unfolding put_block_in_inderect2
inderect2_frees sb works v base good a b c =
    ground (arith, good v.calls, good (v.calls + 1), good (v.calls + 2), good (v.calls + 3))

-- The sectors on the way to a leaf of level 2
walk2 :
    (sb : SuperBlock) (v : Volume) (i j : ℕ)
    → i < 256
    → j < 256
    → IsTree sb v
    → 0 < sector_at v (word_in (word_in (slot 13) i) j)
    → (0 < v.inode.blocks 13)
      × (sb.data_start_lba ≤ v.inode.blocks 13)
      × (0 < v.disk (v.inode.blocks 13) i)
      × (sb.data_start_lba ≤ v.disk (v.inode.blocks 13) i)
      × (sector_at v (word_in (word_in (slot 13) i) j) ≡ v.disk (v.disk (v.inode.blocks 13) i) j)
unfolding sector_at IsPlace levels
walk2 sb v i j hi hj t pos =
    let a : 0 < v.inode.blocks 13 = ground arith in
    let b : 0 < v.disk (v.inode.blocks 13) i = ground arith in
    let up : sector_at v (word_in (slot 13) i) ≡ v.disk (v.inode.blocks 13) i = ground arith in
    let u = above_start sb v _ (t.used (slot 13) (omega arith) a) in
    let w =
      above_start sb v _
        (t.used (word_in (slot 13) i) (omega arith, omega arith, hi) (omega arith)) in
    (a, u, b, omega arith, ground arith)

leaf_after :
    (sb : SuperBlock) (v w : Volume) (i j : ℕ)
    → 0 < v.inode.blocks 13
    → sb.data_start_lba ≤ v.inode.blocks 13
    → 0 < v.disk (v.inode.blocks 13) i
    → sb.data_start_lba ≤ v.disk (v.inode.blocks 13) i
    → w.inode ≡ v.inode
    → ((l k : ℕ) → sb.data_start_lba ≤ l → w.disk l k ≡ v.disk l k)
    → sector_at w (word_in (word_in (slot 13) i) j) ≡ v.disk (v.disk (v.inode.blocks 13) i) j
unfolding sector_at
leaf_after sb v w i j a a' b b' inode disk =
    rw (inode, disk (v.inode.blocks 13) i a')
      (ground (arith, disk (v.disk (v.inode.blocks 13) i) j b'))

put_index :
    (sb : SuperBlock) (works : ℕ → Bool) (v : Volume) (base : ℕ)
    → base < 65536
    → put_block_by_block_index sb works (268 + base) v ≡ put_block_in_inderect2 sb works base v
unfolding put_block_by_block_index
put_index sb works v base lt = ground arith

place_index :
    (base : ℕ)
    → base < 65536
    → place_of (268 + base) ≡ word_in (word_in (slot 13) (base / 256)) (base % 256)
unfolding place_of
place_index base lt = ground arith

-- On a mounted volume, for a file whose sectors form a tree and a `base` below 65536, which makes
-- `268 + base` a block that two pointer blocks lead to: where that block has a sector of the bitmap
-- and every call of `kmalloc`, `BlockRead` and `BlockWrite` succeeds, `PutBlockByBlockIndex` returns
-- 0, the sector is free afterwards, and the block of the file still has it.
pub put_block_dangles :
    (sb : SuperBlock) (works : ℕ → Bool) (v : Volume) (base : ℕ)
    → base < 65536
    → IsTree sb v
    → IsMounted sb v
    → ((n : ℕ) → works n ≡ true)
    → 0 < sector_at v (place_of (268 + base))
    → sector_at v (place_of (268 + base)) < sb.data_start_lba + sb.sector_bitmap.bytes_len * 8
    → ((put_block_by_block_index sb works (268 + base) v).0 ≡ done tt)
      × (scan_test
            (put_block_by_block_index sb works (268 + base) v).1.memory
            sb.sector_bitmap
            (sector_at v (place_of (268 + base)) - sb.data_start_lba)
          ≡ false)
      × (sector_at (put_block_by_block_index sb works (268 + base) v).1 (place_of (268 + base))
          ≡ sector_at v (place_of (268 + base)))
unfolding sector_at IsPlace levels
put_block_dangles sb works v base lt t m good pos high =
    let e = place_index base lt in
    let i = base / 256 in
    let j = base % 256 in
    let (a, a', b, b', at) =
      walk2 sb v i j (omega arith) (omega arith) t (subst (λ p. 0 < sector_at v p) e pos) in
    let c = v.disk (v.disk (v.inode.blocks 13) i) j in
    let at' : sector_at v (place_of (268 + base)) ≡ c = ap (sector_at v) e ∙ at in
    let v4 : Volume = record v { calls = v.calls + 4 } in
    let s : IsSame sb v v4 = record { memory = refl; inode = refl; disk = λ l k up. refl } in
    let inside : IsPlace (word_in (word_in (slot 13) i) j) =
      ((omega arith, omega arith, omega arith), omega arith, omega arith) in
    let u = above_start sb v _ (t.used (word_in (word_in (slot 13) i) j) inside (omega arith)) in
    let f =
      free_one_sector-IsFreed sb works v4 c (same-IsMounted sb v v4 m s) (omega arith)
        (omega arith) in
    rw
      (put_index sb works v base lt, inderect2_frees sb works v base good a b (omega arith), at', e)
      (
        refl,
        ground (arith, f.bits (c - sb.data_start_lba)),
        leaf_after sb v (free_one_sector sb works c v4) i j a a' b b' f.inode f.disk,
      )
