-- ===== src/Bofs/Trees.antt =====
-- fs/bofs/inode.c: a sector put into an empty place of a file leaves the file a tree.
use xbook.Prelude.{
  ℕ, ◌-◌, ◌≤◌, ◌<◌, ◌≡◌, ◌≢◌, inl, inr, refl, sym, ◌∙◌, ap, true, false, ◌==◌, if◌then◌else◌,
  Bool-cases, arith,
}
use mathlib.Core.Path.{subst}
use native.Mathlib.Decide.{ℕ_discrete}
use xbook.Bitmap.{scan_test}
use xbook.Bofs.{SuperBlock, Volume}
use xbook.Bofs.Places.{
  Place, slot, word_in, same, same-eq, same_refl, levels, IsPlace, sector_at, IsUsed, IsTree,
}

-- The pointer block that a place is in holds a sector.
unfoldable pub HasHolder : Volume → Place → Type 0
HasHolder v (slot r) = Unit {0}
HasHolder v (word_in p i) = 0 < sector_at v p

-- `v'` is `v` with the sector `x` put into the place `p`.
pub record IsPlanted (v : Volume) (p : Place) (x : ℕ) (v' : Volume) : Type 0 where
  pub slots : (r : ℕ) → v'.inode.blocks r ≡ (if same p (slot r) then x else v.inode.blocks r)
  pub words :
      (q : Place) (i : ℕ)
      → IsPlace (word_in q i)
      → 0 < sector_at v q
      → v'.disk (sector_at v q) i ≡ (if same p (word_in q i) then x else v.disk (sector_at v q) i)
  pub cleared : (i : ℕ) → v'.disk x i ≡ 0

pub not_same : (p q : Place) → (p ≡ q → ⊥) → same p q ≡ false
not_same p q h = elim (Bool-cases (same p q)) [ inl e ↦ absurd (h (same-eq p q e)) | inr e ↦ e ]

not_below : (p : Place) (i : ℕ) → same p (word_in p i) ≡ false
not_below (slot r) i = refl
not_below (word_in p k) i = rw (not_below p k) refl

pub planted_sector :
    (v : Volume) (p : Place) (x : ℕ) (v' : Volume)
    → IsPlanted v p x v'
    → HasHolder v p
    → sector_at v p ≡ 0
    → (q : Place) → IsPlace q
    → sector_at v' q ≡ (if same p q then x else sector_at v q)
unfolding sector_at HasHolder IsPlace
planted_sector v p x v' h holder empty (slot r) inside = h.slots r
planted_sector v p x v' h holder empty (word_in q i) inside =
    let ih = planted_sector v p x v' h holder empty q inside.0 in
    elim (Bool-cases (same p q)) [
      | inl e ↦
          let at : p ≡ q = same-eq p q e in
          let none_there : sector_at v q ≡ 0 = ap (sector_at v) (sym at) ∙ empty in
          let deeper : same p (word_in q i) ≡ false =
            ap (λ (p' : Place). same p' (word_in q i)) at ∙ not_below q i in
          let holds : sector_at v' q ≡ x = ground arith in
          ground (arith, h.cleared i, ap (λ (l : ℕ). v'.disk l i) holds)
      | inr e ↦
          let holds : sector_at v' q ≡ sector_at v q = ground arith in
          elim (ℕ_discrete (sector_at v q) 0) [
            | yes z ↦
                let other : same p (word_in q i) ≡ false = not_same p (word_in q i) (λ at.
                  let held : HasHolder v (word_in q i) = subst (HasHolder v) at holder in
                  omega (arith, held)) in
                ground arith
            | no nz ↦ rw holds (ground (arith, h.words q i inside (omega arith)))
          ]
    ]

-- What a change leaves: sectors stay where they are and stay used, no place comes to hold a sector
-- that was used, and the words of used sectors that are not pointer blocks of the file stay.
pub record IsKept (sb : SuperBlock) (v v' : Volume) : Type 0 where
  pub keeps : (q : Place) → IsPlace q → 0 < sector_at v q → sector_at v' q ≡ sector_at v q
  pub adds :
      (q : Place)
      → IsPlace q
      → IsUsed sb v (sector_at v' q)
      → 0 < sector_at v' q
      → sector_at v q ≡ sector_at v' q
  pub marks : (l : ℕ) → IsUsed sb v l → IsUsed sb v' l
  pub contents :
      (l j : ℕ)
      → 0 < l
      → IsUsed sb v l
      → ((q : Place) → IsPlace q → 0 < levels q → sector_at v q ≢ l)
      → v'.disk l j ≡ v.disk l j

pub IsKept-refl : (sb : SuperBlock) (v : Volume) → IsKept sb v v
IsKept-refl sb v = record {
  keeps = λ q inside some_there. refl;
  adds = λ q inside u pos. refl;
  marks = λ l u. u;
  contents = λ l j pos u other. refl;
}

pub IsKept-trans :
    (sb : SuperBlock) (v w u : Volume) → IsKept sb v w → IsKept sb w u → IsKept sb v u
IsKept-trans sb v w u h k = record {
  keeps = λ q inside pos. let e = h.keeps q inside pos in k.keeps q inside (omega arith) ∙ e;
  adds = λ q inside used pos.
      let e = k.adds q inside (h.marks _ used) pos in
      h.adds q inside (subst (IsUsed sb v) (sym e) used) (omega arith) ∙ e;
  marks = λ l used. k.marks l (h.marks l used);
  contents = λ l j pos used other.
      k.contents l j pos (h.marks l used) (λ q inside lv e.
        other q inside lv (h.adds q inside (subst (IsUsed sb v) (sym e) used) (omega arith) ∙ e))
      ∙ h.contents l j pos used other;
}

-- `v'` is `v` with the sector `x`, which was free, put into the empty place `p` and marked used.
pub record IsFilled (sb : SuperBlock) (v : Volume) (p : Place) (x : ℕ) (v' : Volume) : Type 0 where
  pub planted : IsPlanted v p x v'
  pub above : sb.data_start_lba ≤ x
  pub free : scan_test v.memory sb.sector_bitmap (x - sb.data_start_lba) ≡ false
  pub bits :
      (i : ℕ)
      → scan_test v'.memory sb.sector_bitmap i
        ≡ (if x - sb.data_start_lba == i then true else scan_test v.memory sb.sector_bitmap i)
  pub contents :
      (l j : ℕ)
      → 0 < l
      → IsUsed sb v l
      → ((q : Place) → IsPlace q → 0 < levels q → sector_at v q ≢ l)
      → v'.disk l j ≡ v.disk l j

pub not_used :
    (sb : SuperBlock) (v : Volume) (x l : ℕ)
    → scan_test v.memory sb.sector_bitmap (x - sb.data_start_lba) ≡ false
    → IsUsed sb v l
    → x ≢ l
unfolding IsUsed
not_used sb v x l free u e =
    let hit = ap (λ (y : ℕ). scan_test v.memory sb.sector_bitmap (y - sb.data_start_lba)) e in
    ground (arith, u.1)

module _ (sb : SuperBlock) (v v' : Volume) (p : Place) (x : ℕ) (starts : 0 < sb.data_start_lba)
    (tree : IsTree sb v) (holder : HasHolder v p) (empty : sector_at v p ≡ 0)
    (h : IsFilled sb v p x v') where
  sector_after : (q : Place) → IsPlace q → sector_at v' q ≡ (if same p q then x else sector_at v q)
  sector_after = planted_sector v p x v' h.planted holder empty

  mark_after : (l : ℕ) → IsUsed sb v l → IsUsed sb v' l
  unfolding IsUsed
  mark_after l u = (u.0, ground (arith, h.bits (l - sb.data_start_lba), u.1))

  new-IsUsed : IsUsed sb v' x
  unfolding IsUsed
  new-IsUsed = (h.above, ground (arith, h.bits (x - sb.data_start_lba)))

  pub filled-IsTree : IsTree sb v'
  filled-IsTree = record {
    used = λ q inside pos. elim (Bool-cases (same p q)) [
      | inl e ↦
          let s : sector_at v' q ≡ x = ground (arith, sector_after q inside) in
          subst (IsUsed sb v') (sym s) new-IsUsed
      | inr e ↦
          let s : sector_at v' q ≡ sector_at v q = ground (arith, sector_after q inside) in
          subst (IsUsed sb v') (sym s) (mark_after _ (tree.used q inside (omega arith)))
    ];
    apart = λ q r inside inside' pos e. elim (Bool-cases (same p q)) [
      | inl a ↦ elim (Bool-cases (same p r)) [
        | inl b ↦ sym (same-eq p q a) ∙ same-eq p r b
        | inr b ↦ absurd (
            not_used sb v x (sector_at v r) h.free
              (tree.used r inside'
                (ground (arith, sector_after q inside, sector_after r inside', h.above)))
              (ground (arith, sector_after q inside, sector_after r inside')))
      ]
      | inr a ↦ elim (Bool-cases (same p r)) [
        | inl b ↦ absurd (
            not_used sb v x (sector_at v q) h.free
              (tree.used q inside (ground (arith, sector_after q inside)))
              (ground (arith, sector_after q inside, sector_after r inside')))
        | inr b ↦
            tree.apart q r inside inside' (ground (arith, sector_after q inside))
              (ground (arith, sector_after q inside, sector_after r inside'))
      ]
    ];
  }

  pub filled-IsKept : IsKept sb v v'
  filled-IsKept = record {
    keeps = λ q inside pos.
        let other : same p q ≡ false =
          not_same p q (λ e. let e' = ap (sector_at v) e in omega arith) in
        ground (arith, sector_after q inside);
    adds = λ q inside u pos. elim (Bool-cases (same p q)) [
      | inl a ↦
          absurd (not_used sb v x (sector_at v' q) h.free u (ground (arith, sector_after q inside)))
      | inr a ↦ ground (arith, sector_after q inside)
    ];
    marks = mark_after;
    contents = h.contents;
  }

  pub filled_there : IsPlace p → sector_at v' p ≡ x
  filled_there inside = ground (arith, sector_after p inside, same_refl p)

no_sector : (v : Volume) → ((r : ℕ) → v.inode.blocks r ≡ 0) → (q : Place) → sector_at v q ≡ 0
unfolding sector_at
no_sector v none_there (slot r) = none_there r
no_sector v none_there (word_in q i) = rw (no_sector v none_there q) refl

-- A file without sectors is a tree.
pub empty-IsTree : (sb : SuperBlock) (v : Volume) → ((r : ℕ) → v.inode.blocks r ≡ 0) → IsTree sb v
empty-IsTree sb v none_there = record {
  used = λ q inside pos. let e = no_sector v none_there q in absurd (omega arith);
  apart = λ q r inside inside' pos e. let e' = no_sector v none_there q in absurd (omega arith);
}
