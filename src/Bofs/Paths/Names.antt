-- ===== src/Bofs/Paths/Names.antt =====
-- fs/bofs/dir.c: the names of a path, and what `BOFS_ParsePathAfterward` takes from it.
use xbook.Prelude.{
  ℕ, ◌+◌, ◌≤◌, ◌≡◌, refl, ap, sym, ◌∙◌, Bool, true, false, List, [], ◌∷◌, ◌++◌, ◌==◌, if◌then◌else◌,
  Bool-cases, inl, inr, length, append_assoc, append-nil, arith,
}
use xbook.Bofs.Paths.{skip_slashes, take_name}

-- The names between the slashes, those without characters left out; `name` is what has been read of
-- the one at hand.
abbrev pub emit : List ℕ → List (List ℕ) → List (List ℕ)
emit [] names = names
emit (c ∷ name) names = (c ∷ name) ∷ names

unfoldable pub names_from : List ℕ → List ℕ → List (List ℕ)
names_from name [] = emit name []
names_from name (c ∷ path) =
    let closed = emit name (names_from [] path) in
    let longer = names_from (name ++ c ∷ []) path in if c == b'/' then closed else longer

abbrev pub names_of : List ℕ → List (List ℕ)
names_of path = names_from [] path

pub names_from-slash :
    (c : ℕ) (name path : List ℕ)
    → (c == b'/') ≡ true
    → names_from name (c ∷ path) ≡ emit name (names_of path)
unfolding names_from
names_from-slash c name path s = rw s refl

pub names_from-char :
    (c : ℕ) (name path : List ℕ)
    → (c == b'/') ≡ false
    → names_from name (c ∷ path) ≡ names_from (name ++ c ∷ []) path
unfolding names_from
names_from-char c name path s = rw s refl

skip_slashes-slash :
    (c : ℕ) (path : List ℕ) → (c == b'/') ≡ true → skip_slashes (c ∷ path) ≡ skip_slashes path
unfolding skip_slashes
skip_slashes-slash c path s = rw s refl

skip_slashes-char :
    (c : ℕ) (path : List ℕ) → (c == b'/') ≡ false → skip_slashes (c ∷ path) ≡ c ∷ path
unfolding skip_slashes
skip_slashes-char c path s = rw s refl

take_name-slash :
    (c : ℕ) (path : List ℕ) → (c == b'/') ≡ true → take_name (c ∷ path) ≡ ([], c ∷ path)
unfolding take_name
take_name-slash c path s = rw s refl

take_name-char :
    (c : ℕ) (path : List ℕ)
    → (c == b'/') ≡ false
    → take_name (c ∷ path) ≡ (c ∷ (take_name path).0, (take_name path).1)
unfolding take_name
take_name-char c path s = rw s refl

pub names_of-skip_slashes : (path : List ℕ) → names_of (skip_slashes path) ≡ names_of path
unfolding skip_slashes
names_of-skip_slashes [] = refl
names_of-skip_slashes (c ∷ path) = elim (Bool-cases (c == b'/')) [
  | inl s ↦
      ap names_of (skip_slashes-slash c path s)
      ∙ names_of-skip_slashes path
      ∙ sym (names_from-slash c [] path s)
  | inr s ↦ ap names_of (skip_slashes-char c path s)
]

-- The rest of a path after a name is empty or starts with a slash.
abbrev at_slash : List ℕ → Bool
at_slash [] = true
at_slash (c ∷ path) = c == b'/'

take_name-rest : (path : List ℕ) → at_slash (take_name path).1 ≡ true
unfolding take_name
take_name-rest [] = refl
take_name-rest (c ∷ path) = elim (Bool-cases (c == b'/')) [
  | inl s ↦ rw s s
  | inr s ↦ rw s (take_name-rest path)
]

pub names_from-take_name :
    (name path : List ℕ)
    → names_from name path ≡ emit (name ++ (take_name path).0) (names_of (take_name path).1)
unfolding take_name names_from
names_from-take_name name [] = rw append-nil refl
names_from-take_name name (c ∷ path) = elim (Bool-cases (c == b'/')) [
  | inl s ↦
      names_from-slash c name path s
      ∙ sym (
          ap (λ (p : List ℕ × List ℕ). emit (name ++ p.0) (names_of p.1)) (take_name-slash c path s)
          ∙ (rw append-nil (ap (emit name) (names_from-slash c [] path s))))
  | inr s ↦
      names_from-char c name path s
      ∙ names_from-take_name (name ++ c ∷ []) path
      ∙ ap (λ (n : List ℕ). emit n (names_of (take_name path).1))
          (append_assoc name (c ∷ []) (take_name path).0)
      ∙ sym (
          ap (λ (p : List ℕ × List ℕ). emit (name ++ p.0) (names_of p.1)) (take_name-char c path s))
]

pub length-skip_slashes : (path : List ℕ) → length (skip_slashes path) ≤ length path
unfolding skip_slashes
length-skip_slashes [] = omega arith
length-skip_slashes (c ∷ path) = elim (Bool-cases (c == b'/')) [
  | inl s ↦ rw s (omega (arith, length-skip_slashes path))
  | inr s ↦ rw s (omega arith)
]

pub length-take_name :
    (path : List ℕ) → length (take_name path).0 + length (take_name path).1 ≡ length path
unfolding take_name
length-take_name [] = refl
length-take_name (c ∷ path) = elim (Bool-cases (c == b'/')) [
  | inl s ↦ rw s (omega arith)
  | inr s ↦ rw s (omega (arith, length-take_name path))
]

-- The rest after the name is empty if the name is: no slash stands in front.
pub take_name-skip_slashes :
    (path : List ℕ)
    → (take_name (skip_slashes path)).0 ≡ []
    → (take_name (skip_slashes path)).1 ≡ []
unfolding skip_slashes take_name
take_name-skip_slashes [] = λ e. refl
take_name-skip_slashes (c ∷ path) = elim (Bool-cases (c == b'/')) [
  | inl s ↦ rw (skip_slashes-slash c path s) (take_name-skip_slashes path)
  | inr s ↦ rw (skip_slashes-char c path s) (rw (take_name-char c path s) (λ e. absurd (cc)))
]

emit-append : (name : List ℕ) (xs ys : List (List ℕ)) → emit name (xs ++ ys) ≡ emit name xs ++ ys
emit-append [] xs ys = refl
emit-append (c ∷ name) xs ys = refl

pub names_from-append :
    (name path rest : List ℕ)
    → names_from name (path ++ b'/' ∷ rest) ≡ names_from name path ++ names_of rest
unfolding names_from
names_from-append name [] rest = emit-append name [] (names_of rest)
names_from-append name (c ∷ path) rest = elim (Bool-cases (c == b'/')) [
  | inl s ↦ rw s (
      ap (emit name) (names_from-append [] path rest)
      ∙ emit-append name (names_of path) (names_of rest))
  | inr s ↦ rw s (names_from-append (name ++ c ∷ []) path rest)
]
