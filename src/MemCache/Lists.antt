-- ===== src/MemCache/Lists.antt =====
-- Finding, unlinking and replacing a group in the list that holds it.
use xbook.Prelude.{
  ℕ, ◌+◌, ◌≤◌, ◌≡◌, refl, ap, sym, ◌∙◌, true, false, some, List, [], ◌∷◌, ◌++◌, ◌==◌, Bool-cases,
  ◌⊎◌, inl, inr, arith,
}
use xbook.MemCache.{MemGroup, find_group, unlink_group, put_group}
use xbook.MemCache.Invariant.{All, sum_of, at_address}

-- One round of a search that ended at the group `g`
abbrev Round : ℕ → MemGroup → List MemGroup → MemGroup → Type 0
Round a h gs g =
    ((h.address == a) ≡ true) × (h ≡ g) ⊎ ((h.address == a) ≡ false) × (find_group a gs ≡ some g)

round :
    (a : ℕ) (h : MemGroup) (gs : List MemGroup) (g : MemGroup)
    → find_group a (h ∷ gs) ≡ some g
    → Round a h gs g
unfolding find_group
round a h gs g e = elim (Bool-cases (h.address == a)) [
  | inl here ↦
      let first : find_group a (h ∷ gs) ≡ some h = rw (find_group, here) refl in inl (here, cc)
  | inr there ↦
      let rest : find_group a (h ∷ gs) ≡ find_group a gs = rw (find_group, there) refl in
      inr (there, sym rest ∙ e)
]

pub find_group-append :
    (a : ℕ) (xs ys : List MemGroup) (g : MemGroup)
    → find_group a (xs ++ ys) ≡ some g
    → (find_group a xs ≡ some g) ⊎ (find_group a ys ≡ some g)
unfolding find_group
find_group-append a [] ys g e = inr e
find_group-append a (x ∷ xs) ys g e = elim (round a x (xs ++ ys) g e) [
  | inl (here, same) ↦ inl (rw here (ap some same))
  | inr (there, found) ↦ rw there (find_group-append a xs ys g found)
]

pub All-find_group :
    (P : MemGroup → Type 0) (a : ℕ) (gs : List MemGroup) (g : MemGroup)
    → All P gs
    → find_group a gs ≡ some g
    → P g
unfolding find_group
All-find_group P a [] g h e = cc
All-find_group P a (x ∷ gs) g h e = elim (round a x gs g e) [
  | inl (here, same) ↦ rw (← same) h.0
  | inr (there, found) ↦ All-find_group P a gs g h.1 found
]

pub All-unlink_group :
    (P : MemGroup → Type 0) (a : ℕ) (gs : List MemGroup) → All P gs → All P (unlink_group a gs)
unfolding unlink_group
All-unlink_group P a [] h = tt
All-unlink_group P a (x ∷ gs) h = elim (Bool-cases (x.address == a)) [
  | inl here ↦ rw here h.1
  | inr there ↦ rw there (h.0, All-unlink_group P a gs h.1)
]

pub All-put_group :
    (P : MemGroup → Type 0) (g : MemGroup) (gs : List MemGroup)
    → P g
    → All P gs
    → All P (put_group g gs)
unfolding put_group
All-put_group P g [] p h = tt
All-put_group P g (x ∷ gs) p h = elim (Bool-cases (x.address == g.address)) [
  | inl here ↦ rw here (p, h.1)
  | inr there ↦ rw there (h.0, All-put_group P g gs p h.1)
]

pub sum_of-unlink_group :
    (f : MemGroup → ℕ) (a : ℕ) (gs : List MemGroup) (g : MemGroup)
    → find_group a gs ≡ some g
    → sum_of f (unlink_group a gs) + f g ≡ sum_of f gs
unfolding find_group unlink_group sum_of
sum_of-unlink_group f a [] g e = cc
sum_of-unlink_group f a (x ∷ gs) g e = elim (round a x gs g e) [
  | inl (here, same) ↦ rw (here, same) (omega arith)
  | inr (there, found) ↦ rw there (omega (arith, sum_of-unlink_group f a gs g found))
]

pub sum_of-put_group :
    (f : MemGroup → ℕ) (g' : MemGroup) (gs : List MemGroup) (g : MemGroup)
    → find_group g'.address gs ≡ some g
    → sum_of f (put_group g' gs) + f g ≡ sum_of f gs + f g'
unfolding find_group put_group sum_of
sum_of-put_group f g' [] g e = cc
sum_of-put_group f g' (x ∷ gs) g e = elim (round g'.address x gs g e) [
  | inl (here, same) ↦ rw (here, same) (omega arith)
  | inr (there, found) ↦ rw there (omega (arith, sum_of-put_group f g' gs g found))
]

-- A list without the group stays as it is.
pub unlink_group-absent :
    (a : ℕ) (gs : List MemGroup) → sum_of (at_address a) gs ≡ 0 → unlink_group a gs ≡ gs
unfolding unlink_group sum_of at_address
unlink_group-absent a [] e = refl
unlink_group-absent a (x ∷ gs) e = elim (Bool-cases (x.address == a)) [
  | inl here ↦ absurd (ground arith)
  | inr there ↦
      rw there (ap (λ (t : List MemGroup). x ∷ t) (unlink_group-absent a gs (ground arith)))
]

pub put_group-absent :
    (g : MemGroup) (gs : List MemGroup) → sum_of (at_address g.address) gs ≡ 0 → put_group g gs ≡ gs
unfolding put_group sum_of at_address
put_group-absent g [] e = refl
put_group-absent g (x ∷ gs) e = elim (Bool-cases (x.address == g.address)) [
  | inl here ↦ absurd (ground arith)
  | inr there ↦ rw there (ap (λ (t : List MemGroup). x ∷ t) (put_group-absent g gs (ground arith)))
]

pub sum_of-found :
    (a : ℕ) (gs : List MemGroup) (g : MemGroup)
    → find_group a gs ≡ some g
    → 1 ≤ sum_of (at_address a) gs
unfolding find_group sum_of at_address
sum_of-found a [] g e = cc
sum_of-found a (x ∷ gs) g e = elim (round a x gs g e) [
  | inl (here, same) ↦ ground arith
  | inr (there, found) ↦ ground (arith, sum_of-found a gs g found)
]

pub find_group-last :
    (g : MemGroup) (gs : List MemGroup)
    → sum_of (at_address g.address) gs ≡ 0
    → find_group g.address (gs ++ g ∷ []) ≡ some g
unfolding find_group sum_of at_address
find_group-last g [] e = let here : (g.address == g.address) ≡ true = ground arith in rw here refl
find_group-last g (x ∷ gs) e = elim (Bool-cases (x.address == g.address)) [
  | inl here ↦ absurd (ground arith)
  | inr there ↦ rw there (find_group-last g gs (ground arith))
]

pub find_group-put_group :
    (g' : MemGroup) (gs : List MemGroup) (g : MemGroup)
    → find_group g'.address gs ≡ some g
    → find_group g'.address (put_group g' gs) ≡ some g'
unfolding find_group put_group
find_group-put_group g' [] g e = cc
find_group-put_group g' (x ∷ gs) g e = elim (round g'.address x gs g e) [
  | inl (here, same) ↦
      let self : (g'.address == g'.address) ≡ true = ground arith in rw (here, self) refl
  | inr (there, found) ↦ rw there (rw there (find_group-put_group g' gs g found))
]
