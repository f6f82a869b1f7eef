-- ===== src/Bofs/Lookup.antt =====
-- fs/bofs/inode.c: `BOFS_GetInodeData` as a whole, on a file whose pointer blocks form a tree.
use xbook.Prelude.{
  ℕ, ◌+◌, ◌/◌, ◌%◌, ◌<◌, ◌≡◌, inl, inr, refl, Bool, true, false, if◌then◌else◌, Bool-cases, arith,
}
use xbook.Bofs.{SuperBlock, Volume, Result, fault, Action, proceed, ◌>>=◌}
use xbook.Bofs.Inodes.{buffer_or_fail}
use xbook.Bofs.Get.{
  slot_sector, word_sector, split3, get_block_in_inderect1, get_block_in_inderect2,
  get_block_in_inderect3,
}
use xbook.Bofs.Places.{Place, slot, word_in, levels, IsPlace, IsTree}
use xbook.Bofs.Mounted.{IsMounted, IsSame, HasExcuse}
use xbook.Bofs.Trees.{IsKept-refl, IsKept-trans}
use xbook.Bofs.Found.{
  Promised, proceed-Promised, promised_map, IsFound, same-IsMounted, same-IsTree, same-IsFound,
}
use xbook.Bofs.Walk.{slot_sector_lem, word_sector_lem}

buffer_then :
    (sb : SuperBlock) (works : ℕ → Bool) (v : Volume) (f : Action ℕ) (p : Place)
    → IsTree sb v
    → IsMounted sb v
    → ((w : Volume) → IsTree sb w → IsMounted sb w → Promised sb works (f w) (IsFound sb w p))
    → Promised sb works (proceed (buffer_or_fail works v) (λ _. f)) (IsFound sb v p)
unfolding Promised HasExcuse
buffer_then sb works v f p t m h =
    let w : Volume = record v { calls = v.calls + 1 } in
    let s : IsSame sb v w = record { memory = refl; inode = refl; disk = λ l j high. refl } in
    elim (Bool-cases (works v.calls)) [
      | inl ok ↦ rw ok (
          promised_map sb works (f w) (IsFound sb w p) (IsFound sb v p)
            (h w (same-IsTree sb v w t s) (same-IsMounted sb v w m s))
            (λ y u. same-IsFound sb v w u p y t s))
      | inr bad ↦ rw bad (inl (v.calls, bad))
    ]

IsFound-trans :
    (sb : SuperBlock) (v w u : Volume) (p q : Place) (x y : ℕ)
    → IsFound sb v p x w
    → IsFound sb w q y u
    → IsFound sb v q y u
IsFound-trans sb v w u p q x y f g = record {
  there = g.there;
  positive = g.positive;
  kept = IsKept-trans sb v w u f.kept g.kept;
  tree = g.tree;
  mounted = g.mounted;
}

here-IsFound :
    (sb : SuperBlock) (v w : Volume) (p : Place) (x : ℕ) → IsFound sb v p x w → IsFound sb w p x w
here-IsFound sb v w p x f = record {
  there = f.there;
  positive = f.positive;
  kept = IsKept-refl sb w;
  tree = f.tree;
  mounted = f.mounted;
}

-- A walk that goes on from the sector it found
walk_on :
    (sb : SuperBlock) (works : ℕ → Bool) (v : Volume) (o : Result ℕ × Volume) (k : ℕ → Action ℕ)
    (p q : Place)
    → Promised sb works o (IsFound sb v p)
    → ((x : ℕ) (w : Volume) → IsFound sb w p x w → Promised sb works (k x w) (IsFound sb w q))
    → Promised sb works (proceed o k) (IsFound sb v q)
walk_on sb works v o k p q h next =
    proceed-Promised sb works o k (IsFound sb v p) (IsFound sb v q) h (λ x w f.
      promised_map sb works (k x w) (IsFound sb w q) (IsFound sb v q)
        (next x w (here-IsFound sb v w p x f)) (λ y u. IsFound-trans sb v w u p q x y f))

last_word :
    (sb : SuperBlock) (works : ℕ → Bool) (has_buffer : Bool) (n : ℕ) (v : Volume) (p : Place)
    (k x : ℕ)
    → (has_buffer ≡ false → works n ≡ false)
    → IsPlace (word_in p k)
    → IsFound sb v p x v
    → Promised sb works
        ((if has_buffer then word_sector sb works x k else (λ u. (fault, u))) v)
        (IsFound sb v (word_in p k))
unfolding Promised HasExcuse
last_word sb works true n v p k x bad inside f = word_sector_lem sb works v p k x inside f
last_word sb works false n v p k x bad inside f = inl (n, bad refl)

pub get_block_in_inderect1_lem :
    (sb : SuperBlock) (works : ℕ → Bool) (v : Volume) (base : ℕ)
    → base < 256
    → IsTree sb v
    → IsMounted sb v
    → Promised sb works
        (get_block_in_inderect1 sb works base v)
        (IsFound sb v (word_in (slot 12) base))
unfolding get_block_in_inderect1 IsPlace levels
get_block_in_inderect1_lem sb works v base lt t m =
    buffer_then sb works v (slot_sector sb works 12 >>= λ x. word_sector sb works x base)
      (word_in (slot 12) base) t m
      (λ w t' m'.
        walk_on sb works w _ _ (slot 12) (word_in (slot 12) base)
          (slot_sector_lem sb works w 12 (omega arith) t' m')
          (λ x u. word_sector_lem sb works u (slot 12) base x (omega arith, omega arith, lt)))

pub get_block_in_inderect2_lem :
    (sb : SuperBlock) (works : ℕ → Bool) (v : Volume) (base : ℕ)
    → base < 65536
    → IsTree sb v
    → IsMounted sb v
    → Promised sb works
        (get_block_in_inderect2 sb works base v)
        (IsFound sb v (word_in (word_in (slot 13) (base / 256)) (base % 256)))
unfolding get_block_in_inderect2 IsPlace levels
get_block_in_inderect2_lem sb works v base lt t m =
    let root = slot 13 in
    let node = word_in root (base / 256) in
    let leaf = word_in node (base % 256) in
    buffer_then sb works v _ leaf t m (λ w t' m'. buffer_then sb works w _ leaf t' m' (λ u t'' m''.
      walk_on sb works u (slot_sector sb works 13 u)
        (λ x. word_sector sb works x (base / 256) >>= λ y. word_sector sb works y (base % 256)) root
        leaf (slot_sector_lem sb works u 13 (omega arith) t'' m'')
        (λ x a f.
          walk_on sb works a _ _ node leaf
            (word_sector_lem sb works a root (base / 256) x (omega arith, omega arith, omega arith)
              f)
            (λ y b.
              word_sector_lem sb works b node (base % 256) y
                ((omega arith, omega arith, omega arith), omega arith, omega arith)))))

split3_lem :
    (base : ℕ) → base < 16777216 → split3 base ≡ (base / 65536, base / 256 % 256, base % 256)
split3_lem base lt = ground arith

-- The walk of level 3 with its third buffer, and without it
inderect3_walk :
    (sb : SuperBlock) (works : ℕ → Bool) (v : Volume) (i j k n : ℕ) (has_buffer3 : Bool)
    → i < 256
    → j < 256
    → k < 256
    → (has_buffer3 ≡ false → works n ≡ false)
    → IsTree sb v
    → IsMounted sb v
    → Promised sb works
        ((slot_sector sb works 14 >>= λ x. word_sector sb works x i >>= λ y.
            word_sector sb works y j >>= λ z.
            if has_buffer3 then word_sector sb works z k else (λ u. (fault, u)))
          v)
        (IsFound sb v (word_in (word_in (word_in (slot 14) i) j) k))
unfolding IsPlace levels
inderect3_walk sb works v i j k n has_buffer3 hi hj hk bad t m =
    let root = slot 14 in
    let upper = word_in root i in
    let lower = word_in upper j in
    let leaf = word_in lower k in
    let upper_inside : IsPlace upper = (omega arith, omega arith, hi) in
    let lower_inside : IsPlace lower = (upper_inside, omega arith, hj) in
    walk_on sb works v (slot_sector sb works 14 v) _ root leaf
      (slot_sector_lem sb works v 14 (omega arith) t m)
      (λ x a f.
        walk_on sb works a (word_sector sb works x i a) _ upper leaf
          (word_sector_lem sb works a root i x upper_inside f)
          (λ y b g.
            walk_on sb works b (word_sector sb works y j b) _ lower leaf
              (word_sector_lem sb works b upper j y lower_inside g)
              (λ z c.
                last_word sb works has_buffer3 n c lower k z bad (lower_inside, omega arith, hk))))

pub get_block_in_inderect3_lem :
    (sb : SuperBlock) (works : ℕ → Bool) (v : Volume) (base : ℕ)
    → base < 16777216
    → IsTree sb v
    → IsMounted sb v
    → Promised sb works (get_block_in_inderect3 sb works base v) (
        IsFound sb v
          (word_in (word_in (word_in (slot 14) (base / 65536)) (base / 256 % 256)) (base % 256)))
unfolding get_block_in_inderect3
get_block_in_inderect3_lem sb works v base lt t m =
    let leaf =
      word_in (word_in (word_in (slot 14) (base / 65536)) (base / 256 % 256)) (base % 256) in
    rw (get_block_in_inderect3, split3_lem base lt)
      (buffer_then sb works v _ leaf t m (λ w t' m'.
        buffer_then sb works w _ leaf t' m' (λ u t'' m''.
          let next : Volume = record u { calls = u.calls + 1 } in
          let s : IsSame sb u next = record {
            memory = refl;
            inode = refl;
            disk = λ l j high. refl;
          } in
          promised_map sb works _ (IsFound sb next leaf) (IsFound sb u leaf)
            (inderect3_walk sb works next (base / 65536) (base / 256 % 256) (base % 256) u.calls
              (works u.calls) (omega arith) (omega arith) (omega arith) (λ e. e)
              (same-IsTree sb u next t'' s) (same-IsMounted sb u next m'' s))
            (λ y a. same-IsFound sb u next a leaf y t'' s))))
