-- ===== src/Bofs/Walk.antt =====
-- fs/bofs/inode.c: one step of the walk to a sector, through a slot of the inode or a word of a
-- pointer block.
use native.Mathlib.Decide.{ℕ_discrete}
use xbook.Prelude.{
  ℕ, ◌+◌, ◌<◌, ◌≡◌, ◌≢◌, inl, inr, refl, sym, ◌∙◌, ap, Bool, true, false, ◌==◌, if◌then◌else◌,
  Bool-cases, arith,
}
use xbook.Bofs.{
  SuperBlock, Inode, Volume, Result, done, failed, fault, proceed, return, write_word, write_disk,
}
use xbook.Bofs.Sectors.{Grant, none_left, uncleared, ready, alloc_one_sector}
use xbook.Bofs.Get.{set_slot, fill_slot, fill_word, slot_sector, word_sector}
use xbook.Bofs.Places.{Place, slot, word_in, same, same-eq, same_refl, IsPlace, sector_at, IsTree}
use xbook.Bofs.Mounted.{
  IsMounted, IsSame, IsSame-refl, IsGiven, HasExcuse, Granted, alloc_one_sector_lem, sync_lem,
}
use xbook.Bofs.Trees.{HasHolder, IsFilled, not_used}
use xbook.Bofs.Found.{
  Promised, promised_map, same_sector, IsFound, same-IsMounted, same-IsTree, same-IsFound,
  filled-IsFound, there-IsFound, above_start,
}

given-IsMounted :
    (sb : SuperBlock) (v w u : Volume) (x : ℕ)
    → IsMounted sb v
    → IsGiven sb v x w
    → u.memory ≡ w.memory
    → u.inode.id ≡ v.inode.id
    → IsMounted sb u
given-IsMounted sb v w u x h g memory id = record {
  starts = h.starts;
  few = h.few;
  fits = h.fits;
  bitmap_below = h.bitmap_below;
  inode_below = rw id (h.inode_below);
  are_bytes = rw memory (g.are_bytes);
}

slot-IsFilled :
    (sb : SuperBlock) (v w : Volume) (r x : ℕ)
    → IsTree sb v
    → IsGiven sb v x w
    → IsFilled sb v (slot r) x (set_slot r x w)
unfolding IsPlace
slot-IsFilled sb v w r x t g = record {
  planted = record {
    slots = λ r'. rw (g.inode) refl;
    words = λ q i inside pos.
        let u = t.used q inside.0 pos in
        ground (
          arith,
          g.contents (sector_at v q) i (above_start sb v _ u),
          not_used sb v x (sector_at v q) g.free u,
        );
    cleared = λ i. ground (arith, g.contents x i g.above);
  };
  above = g.above;
  free = g.free;
  bits = g.bits;
  contents = λ l j pos u other.
      ground (arith, g.contents l j (above_start sb v l u), not_used sb v x l g.free u);
}

return_lem :
    (sb : SuperBlock) (works : ℕ → Bool) (o : Result (Unit {0}) × Volume) (x : ℕ)
    (Q : ℕ → Volume → Type 0)
    → o.0 ≡ done tt
    → Q x o.1
    → Promised sb works (proceed o (λ _. return x)) Q
unfolding Promised
return_lem sb works (done _, u) x Q e q = q
return_lem sb works (failed, u) x Q e q = cc
return_lem sb works (fault, u) x Q e q = cc

fill_slot_lem :
    (sb : SuperBlock) (works : ℕ → Bool) (v : Volume) (r : ℕ) (o : Grant × Volume)
    → IsPlace (slot r)
    → IsTree sb v
    → IsMounted sb v
    → sector_at v (slot r) ≡ 0
    → Granted sb works v o
    → Promised sb works (fill_slot sb works r o) (IsFound sb v (slot r))
unfolding Promised Granted HasHolder HasExcuse
fill_slot_lem sb works v r (none_left, w) inside t m empty g = g
fill_slot_lem sb works v r (uncleared x, w) inside t m empty g = g
fill_slot_lem sb works v r (ready x, w) inside t m empty g =
    let f = slot-IsFilled sb v w r x t g in
    let m' =
      given-IsMounted sb v w (set_slot r x w) x m g refl (ap (λ (n : Inode). n.id) g.inode) in
    let (e, s) = sync_lem sb works (set_slot r x w) m' in
    return_lem sb works _ x (IsFound sb v (slot r)) e
      (filled-IsFound sb v (set_slot r x w) _ (slot r) x t inside tt empty f m' s)

-- A slot of the inode: the sector is found, or there is an excuse.
pub slot_sector_lem :
    (sb : SuperBlock) (works : ℕ → Bool) (v : Volume) (r : ℕ)
    → IsPlace (slot r)
    → IsTree sb v
    → IsMounted sb v
    → Promised sb works (slot_sector sb works r v) (IsFound sb v (slot r))
unfolding slot_sector sector_at Promised
slot_sector_lem sb works v r inside t m = elim (ℕ_discrete (v.inode.blocks r) 0) [
  | yes z ↦
      let e : (v.inode.blocks r == 0) ≡ true = ground arith in
      rw (slot_sector, e)
        (fill_slot_lem sb works v r _ inside t m z (alloc_one_sector_lem sb works v m))
  | no nz ↦
      let e : (v.inode.blocks r == 0) ≡ false = ground arith in
      rw (slot_sector, e) (there-IsFound sb v (slot r) t m (omega arith))
]

word-IsFilled :
    (sb : SuperBlock) (v w u : Volume) (p : Place) (i x : ℕ)
    → IsPlace (word_in p i)
    → 0 < sector_at v p
    → IsTree sb v
    → IsGiven sb v x w
    → u.memory ≡ w.memory
    → u.inode ≡ w.inode
    → u.disk ≡ write_disk w.disk (sector_at v p) (write_word (v.disk (sector_at v p)) i x)
    → IsFilled sb v (word_in p i) x u
unfolding IsPlace
word-IsFilled sb v w u p i x inside holder t g memory inode disk =
    let lba = sector_at v p in
    let here = t.used p inside.0 holder in
    let fresh = not_used sb v x lba g.free here in
    record {
      planted = record {
        slots = λ r. rw (inode, g.inode) refl;
        words = λ q j within pos.
            let used = t.used q within.0 pos in
            let other = not_used sb v x (sector_at v q) g.free used in
            let old = g.contents (sector_at v q) j (above_start sb v _ used) in
            elim (Bool-cases (same p q)) [
              | inl e ↦
                  let at : sector_at v q ≡ lba = ap (sector_at v) (sym (same-eq p q e)) in
                  rw (disk, e, at) (ground arith)
              | inr e ↦
                  let apart : sector_at v q ≢ lba = λ l.
                    let at = t.apart q p within.0 inside.0 pos l in
                    ground (arith, ap (same p) at, same_refl p) in
                  rw (disk, e) (ground arith)
            ];
        cleared = λ j. rw disk (ground (arith, g.contents x j g.above));
      };
      above = g.above;
      free = g.free;
      bits = λ j. rw memory (g.bits j);
      contents = λ l j pos used other.
          let fresh' = not_used sb v x l g.free used in
          let apart = other p inside.0 inside.1 in
          rw disk (ground (arith, g.contents l j (above_start sb v l used)));
    }

fill_word_lem :
    (sb : SuperBlock) (works : ℕ → Bool) (v : Volume) (p : Place) (i : ℕ) (o : Grant × Volume)
    → IsPlace (word_in p i)
    → 0 < sector_at v p
    → IsTree sb v
    → IsMounted sb v
    → sector_at v (word_in p i) ≡ 0
    → Granted sb works v o
    → Promised sb works
        (fill_word works (sector_at v p) (v.disk (sector_at v p)) i o)
        (IsFound sb v (word_in p i))
unfolding Promised Granted HasHolder HasExcuse
fill_word_lem sb works v p i (none_left, w) inside holder t m empty g = g
fill_word_lem sb works v p i (uncleared x, w) inside holder t m empty g = g
fill_word_lem sb works v p i (ready x, w) inside holder t m empty g =
    elim (Bool-cases (works w.calls)) [
      | inl ok ↦
          let u : Volume = record w {
            disk = write_disk w.disk (sector_at v p) (write_word (v.disk (sector_at v p)) i x);
            calls = w.calls + 1;
          } in
          let f = word-IsFilled sb v w u p i x inside holder t g refl refl refl in
          let m' = given-IsMounted sb v w u x m g refl (ap (λ (n : Inode). n.id) g.inode) in
          rw ok
            (filled-IsFound sb v u u (word_in p i) x t inside holder empty f m' (IsSame-refl sb u))
      | inr bad ↦ rw bad (inl (w.calls, bad))
    ]

word_read :
    (sb : SuperBlock) (works : ℕ → Bool) (w : Volume) (p : Place) (i x : ℕ)
    → IsPlace (word_in p i)
    → IsTree sb w
    → IsMounted sb w
    → 0 < x
    → sector_at w p ≡ x
    → Promised sb works
        (if w.disk x i == 0
          then fill_word works x (w.disk x) i (alloc_one_sector sb works w)
          else (done (w.disk x i), w))
        (IsFound sb w (word_in p i))
unfolding sector_at Promised
word_read sb works w p i x inside t m pos e = elim (ℕ_discrete (w.disk x i) 0) [
  | yes z ↦
      let c : (w.disk x i == 0) ≡ true = ground arith in
      let empty : sector_at w (word_in p i) ≡ 0 = rw e (ground arith) in
      rw (c, sym e)
        (fill_word_lem sb works w p i _ inside (omega arith) t m empty
          (alloc_one_sector_lem sb works w m))
  | no nz ↦
      let c : (w.disk x i == 0) ≡ false = ground arith in
      let there : sector_at w (word_in p i) ≡ w.disk x i = rw e (ground arith) in
      rw (c, sym there) (there-IsFound sb w (word_in p i) t m (omega arith))
]

-- A word of a pointer block of the file: the sector is found, or there is an excuse.
pub word_sector_lem :
    (sb : SuperBlock) (works : ℕ → Bool) (v : Volume) (p : Place) (i x : ℕ)
    → IsPlace (word_in p i)
    → IsFound sb v p x v
    → Promised sb works (word_sector sb works x i v) (IsFound sb v (word_in p i))
unfolding word_sector Promised HasExcuse IsPlace
word_sector_lem sb works v p i x inside f = elim (Bool-cases (works v.calls)) [
  | inl ok ↦
      let w : Volume = record v { calls = v.calls + 1 } in
      let s : IsSame sb v w = record { memory = refl; inode = refl; disk = λ l j high. refl } in
      let at = same_sector sb v w f.tree s p inside.0 ∙ f.there in
      rw ok (
        promised_map sb works _ (IsFound sb w (word_in p i)) (IsFound sb v (word_in p i))
          (word_read sb works w p i x inside (same-IsTree sb v w f.tree s)
            (same-IsMounted sb v w f.mounted s) f.positive at)
          (λ y u. same-IsFound sb v w u (word_in p i) y f.tree s))
  | inr bad ↦ rw bad (inl (v.calls, bad))
]
