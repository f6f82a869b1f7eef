-- ===== src/Bofs/Found.antt =====
-- fs/bofs/inode.c: what it means that a sector was found, and that a change does not touch a file.
use mathlib.Core.Path.{subst}
use native.Mathlib.Decide.{ℕ_discrete}
use xbook.Prelude.{ℕ, ◌≤◌, ◌<◌, ◌≡◌, refl, sym, ◌∙◌, Bool, arith}
use xbook.Bofs.{SuperBlock, Volume, Result, done, failed, fault, Action, proceed}
use xbook.Bofs.Places.{Place, slot, word_in, IsPlace, sector_at, IsUsed, IsTree}
use xbook.Bofs.Mounted.{IsMounted, IsSame, HasExcuse}
use xbook.Bofs.Trees.{
  HasHolder, IsKept, IsKept-refl, IsKept-trans, IsFilled, filled-IsTree, filled-IsKept,
  filled_there,
}

-- A result that is `done` satisfies `Q`, and any other has an excuse.
unfoldable pub Promised {ℓ} :
    {A : Type ℓ} → SuperBlock → (ℕ → Bool) → Result A × Volume → (A → Volume → Type 0) → Type 0
Promised sb works (done x, v) Q = Q x v
Promised sb works (failed, v) Q = HasExcuse sb works v
Promised sb works (fault, v) Q = HasExcuse sb works v

pub proceed-Promised {ℓ κ} :
    {A : Type ℓ} {B : Type κ} (sb : SuperBlock) (works : ℕ → Bool) (o : Result A × Volume)
    (f : A → Action B) (Q : A → Volume → Type 0) (R : B → Volume → Type 0)
    → Promised sb works o Q
    → ((x : A) (v : Volume) → Q x v → Promised sb works (f x v) R)
    → Promised sb works (proceed o f) R
unfolding Promised
proceed-Promised sb works (done x, v) f Q R h k = k x v h
proceed-Promised sb works (failed, v) f Q R h k = h
proceed-Promised sb works (fault, v) f Q R h k = h

pub promised_map {ℓ} :
    {A : Type ℓ} (sb : SuperBlock) (works : ℕ → Bool) (o : Result A × Volume)
    (Q R : A → Volume → Type 0)
    → Promised sb works o Q
    → ((x : A) (v : Volume) → Q x v → R x v)
    → Promised sb works o R
unfolding Promised
promised_map sb works (done x, v) Q R h k = k x v h
promised_map sb works (failed, v) Q R h k = h
promised_map sb works (fault, v) Q R h k = h

pub same_sector :
    (sb : SuperBlock) (v w : Volume)
    → IsTree sb v
    → IsSame sb v w
    → (q : Place) → IsPlace q
    → sector_at w q ≡ sector_at v q
unfolding sector_at IsPlace IsUsed
same_sector sb v w tree h (slot r) inside = rw (h.inode) refl
same_sector sb v w tree h (word_in q i) inside =
    let ih = same_sector sb v w tree h q inside.0 in
    elim (ℕ_discrete (sector_at v q) 0) [
      | yes z ↦ ground arith
      | no nz ↦
          rw ih (ground (arith, h.disk (sector_at v q) i (tree.used q inside.0 (omega arith)).0))
    ]

-- A sector `x` was found at `p`.
pub record IsFound (sb : SuperBlock) (v : Volume) (p : Place) (x : ℕ) (v' : Volume) : Type 0 where
  pub there : sector_at v' p ≡ x
  pub positive : 0 < x
  pub kept : IsKept sb v v'
  pub tree : IsTree sb v'
  pub mounted : IsMounted sb v'

pub same-IsMounted :
    (sb : SuperBlock) (v w : Volume) → IsMounted sb v → IsSame sb v w → IsMounted sb w
same-IsMounted sb v w h s = record {
  starts = h.starts;
  few = h.few;
  fits = h.fits;
  bitmap_below = h.bitmap_below;
  inode_below = rw (s.inode) (h.inode_below);
  are_bytes = rw (s.memory) (h.are_bytes);
}

pub same-IsUsed :
    (sb : SuperBlock) (v w : Volume) (l : ℕ) → IsSame sb v w → IsUsed sb v l → IsUsed sb w l
unfolding IsUsed
same-IsUsed sb v w l s u = rw (s.memory) u

same-IsUsed_back :
    (sb : SuperBlock) (v w : Volume) (l : ℕ) → IsSame sb v w → IsUsed sb w l → IsUsed sb v l
unfolding IsUsed
same-IsUsed_back sb v w l s u = rw (sym (s.memory)) u

pub above_start : (sb : SuperBlock) (v : Volume) (l : ℕ) → IsUsed sb v l → sb.data_start_lba ≤ l
unfolding IsUsed
above_start sb v l u = u.0

pub same-IsTree : (sb : SuperBlock) (v w : Volume) → IsTree sb v → IsSame sb v w → IsTree sb w
same-IsTree sb v w t s = record {
  used = λ q inside pos.
      let e = same_sector sb v w t s q inside in
      subst (IsUsed sb w) (sym e) (same-IsUsed sb v w _ s (t.used q inside (omega arith)));
  apart = λ q r inside inside' pos e.
      let e1 = same_sector sb v w t s q inside in
      let e2 = same_sector sb v w t s r inside' in
      t.apart q r inside inside' (omega arith) (omega arith);
}

pub same-IsKept : (sb : SuperBlock) (v w : Volume) → IsTree sb v → IsSame sb v w → IsKept sb v w
same-IsKept sb v w t s = record {
  keeps = λ q inside pos. same_sector sb v w t s q inside;
  adds = λ q inside u pos. sym (same_sector sb v w t s q inside);
  marks = λ l u. same-IsUsed sb v w l s u;
  contents = λ l j pos u other. s.disk l j (above_start sb v l u);
}

-- What is found after a volume changed in nothing that the file sees is found from before.
pub same-IsFound :
    (sb : SuperBlock) (v w u : Volume) (p : Place) (x : ℕ)
    → IsTree sb v
    → IsSame sb v w
    → IsFound sb w p x u
    → IsFound sb v p x u
same-IsFound sb v w u p x t s f = record {
  there = f.there;
  positive = f.positive;
  kept = IsKept-trans sb v w u (same-IsKept sb v w t s) (f.kept);
  tree = f.tree;
  mounted = f.mounted;
}

-- And a filled volume that then changed in nothing that the file sees has the sector there.
pub filled-IsFound :
    (sb : SuperBlock) (v w u : Volume) (p : Place) (x : ℕ)
    → IsTree sb v
    → IsPlace p
    → HasHolder v p
    → sector_at v p ≡ 0
    → IsFilled sb v p x w
    → IsMounted sb w
    → IsSame sb w u
    → IsFound sb v p x u
filled-IsFound sb v w u p x t inside holder empty f m s =
    let starts = m.starts in
    let t' = filled-IsTree sb v w p x starts t holder empty f in
    record {
      there =
          same_sector sb w u t' s p inside ∙ filled_there sb v w p x starts t holder empty f inside;
      positive = omega (arith, f.above);
      kept =
          IsKept-trans sb v w u (filled-IsKept sb v w p x starts t holder empty f)
            (same-IsKept sb w u t' s);
      tree = same-IsTree sb w u t' s;
      mounted = same-IsMounted sb w u m s;
    }

-- What was there already is found.
pub there-IsFound :
    (sb : SuperBlock) (v : Volume) (p : Place)
    → IsTree sb v
    → IsMounted sb v
    → 0 < sector_at v p
    → IsFound sb v p (sector_at v p) v
there-IsFound sb v p t m pos = record {
  there = refl;
  positive = pos;
  kept = IsKept-refl sb v;
  tree = t;
  mounted = m;
}
