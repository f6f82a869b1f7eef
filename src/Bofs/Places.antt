-- ===== src/Bofs/Places.antt =====
-- fs/bofs/inode.c: the places where a sector of a file is pointed to, the slots of the inode and
-- the words of its pointer blocks, and the sectors they hold.
use xbook.Prelude.{
  ℕ, ◌+◌, ◌-◌, ◌*◌, ◌/◌, ◌%◌, ◌≤◌, ◌<◌, ◌≡◌, sym, ◌∙◌, ap, Bool, true, false, ◌&&◌, ltb, ◌==◌,
  if◌then◌else◌, arith,
}
use xbook.Bitmap.{scan_test}
use xbook.Bofs.{SuperBlock, Volume}

pub data Place : Type 0 where
  slot : ℕ → Place
  word_in : Place → ℕ → Place

abbrev pub same : Place → Place → Bool
same (slot r) (slot r') = r == r'
same (slot r) (word_in q j) = false
same (word_in p i) (slot r) = false
same (word_in p i) (word_in q j) = same p q && (i == j)

pub same-eq : (p q : Place) → same p q ≡ true → p ≡ q
same-eq (slot r) (slot r') h = let e : r ≡ r' = ground arith in ap slot e
same-eq (slot r) (word_in q j) h = cc
same-eq (word_in p i) (slot r) h = cc
same-eq (word_in p i) (word_in q j) h =
    let e : p ≡ q = same-eq p q (ground arith) in let e' : i ≡ j = ground arith in cc

pub same_refl : (p : Place) → same p p ≡ true
same_refl (slot r) = ground arith
same_refl (word_in p i) = ground (arith, same_refl p)

-- How many levels of words hang below a place: none below the slots 0 to 11, which hold data.
unfoldable pub levels : Place → ℕ
levels (slot r) = r - 11
levels (word_in p i) = levels p - 1

unfoldable pub IsPlace : Place → Type 0
IsPlace (slot r) = r < 15
IsPlace (word_in p i) = IsPlace p × (0 < levels p) × (i < 256)

-- The sector a place holds, 0 for none
unfoldable pub sector_at : Volume → Place → ℕ
sector_at v (slot r) = v.inode.blocks r
sector_at v (word_in p i) = if sector_at v p == 0 then 0 else v.disk (sector_at v p) i

-- The place that `get_inode_data` walks to
unfoldable pub place_of : ℕ → Place
place_of index =
    if ltb index 12
    then slot index
    else if ltb index 268
    then word_in (slot 12) (index - 12)
    else if ltb index 65804
    then word_in (word_in (slot 13) ((index - 268) / 256)) ((index - 268) % 256)
    else word_in
        (word_in (word_in (slot 14) ((index - 65804) / 65536)) ((index - 65804) / 256 % 256))
        ((index - 65804) % 256)

-- The sector is used: it is a data sector whose bit is set.
unfoldable pub IsUsed : SuperBlock → Volume → ℕ → Type 0
IsUsed sb v lba =
    (sb.data_start_lba ≤ lba)
    × (scan_test v.memory sb.sector_bitmap (lba - sb.data_start_lba) ≡ true)

-- Every sector of the file is used, and no two places hold the same one.
pub record IsTree (sb : SuperBlock) (v : Volume) : Type 0 where
  pub used : (p : Place) → IsPlace p → 0 < sector_at v p → IsUsed sb v (sector_at v p)
  pub apart :
      (p q : Place)
      → IsPlace p
      → IsPlace q
      → 0 < sector_at v p
      → sector_at v p ≡ sector_at v q
      → p ≡ q

-- The block of the file whose sector a place holds
index_of : Place → ℕ
index_of (slot r) = r
index_of (word_in (slot r) k) = 12 + k
index_of (word_in (word_in (slot r) j) k) = 268 + 256 * j + k
index_of (word_in (word_in (word_in _ i) j) k) = 65804 + 65536 * i + 256 * j + k

index_of-place_of : (i : ℕ) → index_of (place_of i) ≡ i
unfolding index_of place_of
index_of-place_of i = ground arith

-- Two blocks of a file are looked for at different places, which hold data and not pointers.
pub place_of_apart : (i j : ℕ) → place_of i ≡ place_of j → i ≡ j
place_of_apart i j e = sym (index_of-place_of i) ∙ ap index_of e ∙ index_of-place_of j

pub place_of-IsPlace : (i : ℕ) → i < 16843020 → IsPlace (place_of i) × (levels (place_of i) ≡ 0)
unfolding place_of IsPlace levels
place_of-IsPlace i h = (ground arith, ground arith)
