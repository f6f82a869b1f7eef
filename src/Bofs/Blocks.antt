-- ===== src/Bofs/Blocks.antt =====
-- fs/bofs/inode.c: what the callers of `BOFS_GetInodeData` rely on.
use mathlib.Core.Path.{subst}
use xbook.Prelude.{
  ℕ, ◌-◌, ◌*◌, ◌<◌, ◌≡◌, ◌≢◌, ◌⊎◌, inl, inr, refl, sym, ◌∙◌, ap, Bool, true, false, ltb, arith,
}
use native.Mathlib.Decide.{dec_lt}
use xbook.Bitmap.{scan_test}
use xbook.Bofs.{SuperBlock, Volume, Result, done, failed, fault}
use xbook.Bofs.Get.{get_inode_data}
use xbook.Bofs.Places.{
  levels, IsPlace, sector_at, IsUsed, IsTree, place_of, place_of-IsPlace, place_of_apart,
}
use xbook.Bofs.Mounted.{IsMounted, HasExcuse}
use xbook.Bofs.Found.{Promised, IsFound}
use xbook.Bofs.Walk.{slot_sector_lem}
use xbook.Bofs.Lookup.{
  get_block_in_inderect1_lem, get_block_in_inderect2_lem, get_block_in_inderect3_lem,
}

-- On a file whose sectors form a tree, `BOFS_GetInodeData` for an index in range either succeeds
-- or has an excuse: a failed call of `kmalloc`, `BlockRead` or `BlockWrite`, or no free sector.
-- Where it succeeds, the sector it returns is the one that the place of the index holds then; the
-- file is a tree still, on a mounted volume; every sector that the file held is where it was; every
-- used sector stays used and, unless it is one of the file's pointer blocks, keeps its words; and
-- no place of the file comes to hold a sector that was used otherwise.
pub get_inode_data_lem :
    (sb : SuperBlock) (works : ℕ → Bool) (v : Volume) (index : ℕ)
    → index < 16843020
    → IsTree sb v
    → IsMounted sb v
    → Promised sb works (get_inode_data sb works index v) (IsFound sb v (place_of index))
unfolding get_inode_data place_of IsPlace
get_inode_data_lem sb works v index lt t m = elim (dec_lt index 12) [
  | yes a ↦
      let e : ltb index 12 ≡ true = ground arith in
      rw (get_inode_data, place_of, e) (slot_sector_lem sb works v index (omega arith) t m)
  | no a ↦
      let e : ltb index 12 ≡ false = ground arith in
      elim (dec_lt index 268) [
        | yes b ↦
            let e' : ltb index 268 ≡ true = ground arith in
            rw (get_inode_data, place_of, e, e')
              (get_block_in_inderect1_lem sb works v (index - 12) (omega arith) t m)
        | no b ↦
            let e' : ltb index 268 ≡ false = ground arith in
            elim (dec_lt index 65804) [
              | yes c ↦
                  let e'' : ltb index 65804 ≡ true = ground arith in
                  rw (get_inode_data, place_of, e, e', e'')
                    (get_block_in_inderect2_lem sb works v (index - 268) (omega arith) t m)
              | no c ↦
                  let e'' : ltb index 65804 ≡ false = ground arith in
                  let e3 : ltb index 16843020 ≡ true = ground arith in
                  rw (get_inode_data, place_of, e, e', e'', e3)
                    (get_block_in_inderect3_lem sb works v (index - 65804) (omega arith) t m)
            ]
      ]
]

pub get_inode_data-IsFound :
    (sb : SuperBlock) (works : ℕ → Bool) (v w : Volume) (index x : ℕ)
    → index < 16843020
    → IsTree sb v
    → IsMounted sb v
    → get_inode_data sb works index v ≡ (done x, w)
    → IsFound sb v (place_of index) x w
unfolding Promised
get_inode_data-IsFound sb works v w index x lt t m e =
    subst (λ o. Promised sb works o (IsFound sb v (place_of index))) e
      (get_inode_data_lem sb works v index lt t m)

-- Two different blocks of such a file get two different sectors: after the sector of block `i` and
-- then that of block `j` was found, the first is still that of block `i`, and finding the second
-- changed no word of it.
pub get_inode_data_apart :
    (sb : SuperBlock) (works : ℕ → Bool) (v w u : Volume) (i j x y : ℕ)
    → i < 16843020
    → j < 16843020
    → i ≢ j
    → IsTree sb v
    → IsMounted sb v
    → get_inode_data sb works i v ≡ (done x, w)
    → get_inode_data sb works j w ≡ (done y, u)
    → (x ≢ y) × (sector_at u (place_of i) ≡ x) × ((k : ℕ) → u.disk x k ≡ w.disk x k)
get_inode_data_apart sb works v w u i j x y hi hj ne t m e e' =
    let f = get_inode_data-IsFound sb works v w i x hi t m e in
    let g = get_inode_data-IsFound sb works w u j y hj f.tree f.mounted e' in
    let inside = place_of-IsPlace i hi in
    let here = f.there in
    let stays = g.kept.keeps (place_of i) inside.0 (omega (arith, f.positive)) ∙ here in
    (
      λ same. ne (
          place_of_apart i j (
            g.tree.apart (place_of i) (place_of j) inside.0 (place_of-IsPlace j hj).0
              (omega (arith, f.positive)) (stays ∙ same ∙ sym g.there))),
      stays,
      λ k.
          g.kept.contents x k f.positive
            (subst (IsUsed sb w) here
              (f.tree.used (place_of i) inside.0 (omega (arith, f.positive))))
            (λ q qi lv at.
              let e0 =
                f.tree.apart q (place_of i) qi inside.0 (omega (arith, f.positive))
                  (at ∙ sym here) in
              let e1 = ap levels e0 in omega (arith, e1, inside.1)),
    )

-- Where the same block is found twice, it is the same sector.
pub get_inode_data_again :
    (sb : SuperBlock) (works : ℕ → Bool) (v w u : Volume) (i x y : ℕ)
    → i < 16843020
    → IsTree sb v
    → IsMounted sb v
    → get_inode_data sb works i v ≡ (done x, w)
    → get_inode_data sb works i w ≡ (done y, u)
    → y ≡ x
get_inode_data_again sb works v w u i x y hi t m e e' =
    let f = get_inode_data-IsFound sb works v w i x hi t m e in
    let g = get_inode_data-IsFound sb works w u i y hi f.tree f.mounted e' in
    let here = f.there in
    sym g.there
    ∙ g.kept.keeps (place_of i) (place_of-IsPlace i hi).0 (omega (arith, f.positive))
    ∙ here

done_or :
    (sb : SuperBlock) (works : ℕ → Bool) (o : Result ℕ × Volume) (Q : ℕ → Volume → Type 0)
    → ((n : ℕ) → works n ≡ true)
    → Promised sb works o Q
    → ((x : ℕ) × (o.0 ≡ done x))
      ⊎ ((i : ℕ)
          → i < sb.sector_bitmap.bytes_len * 8
          → scan_test o.1.memory sb.sector_bitmap i ≡ true)
unfolding Promised HasExcuse
done_or sb works (done x, v) Q good p = inl (x, refl)
done_or sb works (failed, v) Q good (inl (n, bad)) = ground (arith, good n)
done_or sb works (failed, v) Q good (inr full) = inr full
done_or sb works (fault, v) Q good (inl (n, bad)) = ground (arith, good n)
done_or sb works (fault, v) Q good (inr full) = inr full

-- If every call of `kmalloc`, `BlockRead` and `BlockWrite` succeeds, then `BOFS_GetInodeData` for
-- an index in range succeeds, unless it leaves no sector of the bitmap free.
pub get_inode_data_done :
    (sb : SuperBlock) (works : ℕ → Bool) (v : Volume) (index : ℕ)
    → index < 16843020
    → IsTree sb v
    → IsMounted sb v
    → ((n : ℕ) → works n ≡ true)
    → ((x : ℕ) × ((get_inode_data sb works index v).0 ≡ done x))
      ⊎ ((i : ℕ)
          → i < sb.sector_bitmap.bytes_len * 8
          → scan_test (get_inode_data sb works index v).1.memory sb.sector_bitmap i ≡ true)
get_inode_data_done sb works v index lt t m good =
    done_or sb works (get_inode_data sb works index v) (IsFound sb v (place_of index)) good
      (get_inode_data_lem sb works v index lt t m)
