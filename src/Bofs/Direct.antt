-- ===== src/Bofs/Direct.antt =====
-- fs/bofs/inode.c and fs/bofs/bitmap.c: a direct sector of a file that is given back.
use mathlib.Core.Path.{subst}
use native.Mathlib.Decide.{ℕ_discrete}
use xbook.Prelude.{
  ℕ, ◌+◌, ◌-◌, ◌*◌, ◌<◌, ◌≡◌, ◌≢◌, inl, inr, refl, sym, ◌∙◌, ap, Bool, true, false, ltb, ◌==◌,
  if◌then◌else◌, Bool-cases, arith,
}
use xbook.Bitmap.{scan_test}
use xbook.Bofs.{SuperBlock, Volume}
use xbook.Bofs.Sectors.{free_one_sector}
use xbook.Bofs.Get.{set_slot}
use xbook.Bofs.Put.{put_block_by_block_index}
use xbook.Bofs.Places.{Place, slot, word_in, same, levels, IsPlace, sector_at, IsUsed, IsTree}
use xbook.Bofs.Mounted.{IsMounted, IsSame, sync_lem}
use xbook.Bofs.Trees.{not_same}
use xbook.Bofs.Found.{above_start, same-IsMounted}
use xbook.Bofs.Freed.{IsFreed, free_one_sector-IsFreed}

leaf_slot :
    (v w : Volume) (r : ℕ)
    → r < 12
    → w.inode.blocks ≡ (set_slot r 0 v).inode.blocks
    → ((q : Place) (i : ℕ)
        → IsPlace q
        → 0 < sector_at v q
        → w.disk (sector_at v q) i ≡ v.disk (sector_at v q) i)
    → (q : Place) → IsPlace q
    → sector_at w q ≡ (if same (slot r) q then 0 else sector_at v q)
unfolding sector_at IsPlace levels
leaf_slot v w r lt blocks disk (slot r') inside = rw blocks refl
leaf_slot v w r lt blocks disk (word_in q i) inside =
    let ih = leaf_slot v w r lt blocks disk q inside.0 in
    let other : same (slot r) q ≡ false =
      not_same (slot r) q (λ e. let e' = ap levels e in omega arith) in
    elim (ℕ_discrete (sector_at v q) 0) [
      | yes z ↦ ground arith
      | no nz ↦
          let stays : sector_at w q ≡ sector_at v q = ground arith in
          rw stays (ground (arith, disk q i inside.0 (omega arith)))
    ]

id-IsMounted :
    (sb : SuperBlock) (v w : Volume)
    → IsMounted sb v
    → w.memory ≡ v.memory
    → w.inode.id ≡ v.inode.id
    → IsMounted sb w
id-IsMounted sb v w m memory id = record {
  starts = m.starts;
  few = m.few;
  fits = m.fits;
  bitmap_below = m.bitmap_below;
  inode_below = rw id (m.inode_below);
  are_bytes = rw memory (m.are_bytes);
}

module _ (sb : SuperBlock) (v f w : Volume) (r : ℕ) (lt : r < 12) (t : IsTree sb v)
    (pos : 0 < v.inode.blocks r) (freed : IsFreed sb v (v.inode.blocks r) f)
    (s : IsSame sb (set_slot r 0 f) w) where
  slot_after :
      (q : Place) → IsPlace q → sector_at w q ≡ (if same (slot r) q then 0 else sector_at v q)
  slot_after = leaf_slot v w r lt (rw (s.inode, freed.inode) refl) (λ q i inside some_there.
      let up = above_start sb v _ (t.used q inside some_there) in s.disk _ i up ∙ freed.disk _ i up)

  other-IsUsed :
      (q : Place)
      → IsPlace q
      → 0 < sector_at v q
      → same (slot r) q ≡ false
      → IsUsed sb w (sector_at v q)
  unfolding IsUsed IsPlace sector_at
  other-IsUsed q inside some_there other =
      let u = t.used q inside some_there in
      let mine = t.used (slot r) (omega arith) pos in
      let apart : v.inode.blocks r ≢ sector_at v q = λ e.
        let at = t.apart (slot r) q (omega arith) inside pos e in
        ground (arith, ap (same (slot r)) at) in
      (
        u.0,
        rw (s.memory)
            (ground (arith, freed.bits (sector_at v q - sb.data_start_lba), u.1, u.0, mine.0)),
      )

  pub released-IsTree : IsTree sb w
  released-IsTree = record {
    used = λ q inside some_there.
        let after = slot_after q inside in
        elim (Bool-cases (same (slot r) q)) [
          | inl e ↦ ground arith
          | inr e ↦
              let stays : sector_at w q ≡ sector_at v q = ground arith in
              subst (IsUsed sb w) (sym stays) (other-IsUsed q inside (omega arith) e)
        ];
    apart = λ q q' inside inside' some_there e.
        t.apart q q' inside inside' (ground (arith, slot_after q inside))
          (ground (arith, slot_after q inside, slot_after q' inside'));
  }

-- Where one of the 12 direct blocks of a file, whose sectors form a tree, has a sector of the
-- bitmap, `PutBlockByBlockIndex` leaves a tree on a mounted volume: the block has no sector any
-- more, its sector is free, and every other place of the file holds what it held.
pub put_block_direct :
    (sb : SuperBlock) (works : ℕ → Bool) (v : Volume) (index : ℕ)
    → index < 12
    → IsTree sb v
    → IsMounted sb v
    → 0 < v.inode.blocks index
    → v.inode.blocks index < sb.data_start_lba + sb.sector_bitmap.bytes_len * 8
    → IsTree sb (put_block_by_block_index sb works index v).1
      × IsMounted sb (put_block_by_block_index sb works index v).1
      × (scan_test
            (put_block_by_block_index sb works index v).1.memory
            sb.sector_bitmap
            (v.inode.blocks index - sb.data_start_lba)
          ≡ false)
      × ((q : Place)
          → IsPlace q
          → sector_at (put_block_by_block_index sb works index v).1 q
            ≡ (if same (slot index) q then 0 else sector_at v q))
unfolding put_block_by_block_index sector_at IsPlace
put_block_direct sb works v index lt t m pos high =
    let x = v.inode.blocks index in
    let up = above_start sb v _ (t.used (slot index) (omega arith) pos) in
    let freed = free_one_sector-IsFreed sb works v x m up high in
    let f = free_one_sector sb works x v in
    let cleared = set_slot index 0 f in
    let mc = id-IsMounted sb f cleared freed.mounted refl refl in
    let s = (sync_lem sb works cleared mc).1 in
    let c : (v.inode.blocks index == 0) ≡ false = ground arith in
    let c' : ltb index 12 ≡ true = ground arith in
    rw (put_block_by_block_index, c', c)
      (
        released-IsTree sb v f _ index lt t pos freed s,
        same-IsMounted sb cleared _ mc s,
        rw (s.memory) (ground (arith, freed.bits (x - sb.data_start_lba))),
        slot_after sb v f _ index lt t pos freed s,
      )
