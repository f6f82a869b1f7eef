-- ===== src/Bofs/Paths/Washed.antt =====
-- fs/bofs/dir.c: `BOFS_WashPath` on the paths that it gives
use mathlib.Core.Path.{subst}
use mathlib.Core.Option.{some-injective}
use xbook.Prelude.{
  ◌≢◌, ℕ, ◌<◌, ◌≡◌, refl, ap, sym, ◌∙◌, false, some, List, [], ◌∷◌, ◌++◌, ◌==◌, Bool-cases, inl,
  inr, length, arith, true, none,
}
use xbook.Bofs.Paths.{starts_at_root, wash_path}
use xbook.Bofs.Paths.Names.{emit, names_from, names_of, names_from-append, names_from-take_name}
use xbook.Bofs.Paths.Washing.{
  resolve, resolve_all, render_names, render, or_root, IsSlashless, no_char, more_chars, IsName,
  AreNames, no_names, more_names, take_name_whole, resolve-AreNames, resolve_all-append,
  wash_path-render,
}

append-IsSlashless :
    (c : ℕ) {name : List ℕ} → (c == b'/') ≡ false → IsSlashless name → IsSlashless (name ++ c ∷ [])
append-IsSlashless c s no_char = more_chars c [] s no_char
append-IsSlashless c s (more_chars d name t ok) =
    more_chars d (name ++ c ∷ []) t (append-IsSlashless c s ok)

names_from-AreNames :
    (name path : List ℕ) {stack : List (List ℕ)}
    → IsSlashless name
    → AreNames stack
    → AreNames (resolve_all stack (names_from name path))
unfolding names_from resolve_all
names_from-AreNames [] [] s ok = ok
names_from-AreNames (d ∷ name) [] s ok = resolve-AreNames (omega arith) s ok
names_from-AreNames [] (c ∷ path) s ok = elim (Bool-cases (c == b'/')) [
  | inl k ↦ rw k (names_from-AreNames [] path no_char ok)
  | inr k ↦ rw k (names_from-AreNames (c ∷ []) path (more_chars c [] k no_char) ok)
]
names_from-AreNames (d ∷ name) (c ∷ path) s ok = elim (Bool-cases (c == b'/')) [
  | inl k ↦ rw k (names_from-AreNames [] path no_char (resolve-AreNames (omega arith) s ok))
  | inr k ↦ rw k (names_from-AreNames (d ∷ name ++ c ∷ []) path (append-IsSlashless c k s) ok)
]

emit-nonempty : (name : List ℕ) → 0 < length name → emit name [] ≡ name ∷ []
emit-nonempty [] l = absurd (omega (arith, l))
emit-nonempty (c ∷ name) l = refl

names_of-IsName : {name : List ℕ} → IsName name → names_of name ≡ name ∷ []
unfolding names_from
names_of-IsName {name} n =
    names_from-take_name [] name ∙ rw (take_name_whole n.slashless) (emit-nonempty name n.nonempty)

resolve-IsName :
    (stack : List (List ℕ)) {name : List ℕ} → IsName name → resolve stack name ≡ name ∷ stack
unfolding resolve
resolve-IsName stack n = rw n.not_dot_dot (rw n.not_dot refl)

-- The names of a path that was rendered lead back to where it was rendered from.
resolve_all-render_names :
    {stack : List (List ℕ)}
    → AreNames stack
    → resolve_all [] (names_of (render_names stack)) ≡ stack
unfolding render_names names_from resolve_all
resolve_all-render_names no_names = refl
resolve_all-render_names (more_names {name} {names} n ok) =
    rw (names_from-append [] (render_names names) name) (
      rw (resolve_all-append [] (names_of (render_names names)) (names_of name))
        (rw (resolve_all-render_names ok) (rw (names_of-IsName n) (resolve-IsName names n))))

names_of-or_root : (path : List ℕ) → names_of (or_root path) ≡ names_of path
unfolding names_from
names_of-or_root [] = refl
names_of-or_root (c ∷ path) = refl

starts_at_root-append :
    (path rest : List ℕ) → starts_at_root path ≡ true → starts_at_root (path ++ rest) ≡ true
starts_at_root-append [] rest s = cc
starts_at_root-append (c ∷ path) rest s = s

starts_at_root-or_root :
    (path : List ℕ)
    → (path ≢ [] → starts_at_root path ≡ true)
    → starts_at_root (or_root path) ≡ true
starts_at_root-or_root [] s = refl
starts_at_root-or_root (c ∷ path) s = s (λ e. cc)

starts_at_root-render_names :
    (stack : List (List ℕ)) → render_names stack ≢ [] → starts_at_root (render_names stack) ≡ true
unfolding render_names
starts_at_root-render_names [] ne = absurd (ne refl)
starts_at_root-render_names (name ∷ []) ne = refl
starts_at_root-render_names (name ∷ above ∷ stack) ne =
    starts_at_root-append (render_names (above ∷ stack)) (b'/' ∷ name)
      (starts_at_root-render_names (above ∷ stack) (below (render_names stack) above))
  where
    below : (path name : List ℕ) → path ++ b'/' ∷ name ≢ []
    below [] name e = cc
    below (c ∷ path) name e = cc

-- What `BOFS_WashPath` gives it was given with a slash in front.
washed_from_root :
    (path washed : List ℕ) → wash_path path ≡ some washed → starts_at_root path ≡ true
unfolding wash_path
washed_from_root path washed e = elim (Bool-cases (starts_at_root path)) [
  | inl s ↦ s
  | inr s ↦ let gone : wash_path path ≡ none = rw (wash_path, s) refl in absurd (cc)
]

-- A path that `BOFS_WashPath` gave is left as it is by washing it again.
pub wash_path-wash_path :
    (path washed : List ℕ) → wash_path path ≡ some washed → wash_path washed ≡ some washed
wash_path-wash_path path washed e =
    let stack = resolve_all [] (names_of path) in
    let same : render stack ≡ washed =
      some-injective (render stack) washed
        (sym (wash_path-render path (washed_from_root path washed e)) ∙ e) in
    subst (λ p. wash_path p ≡ some p) same
      (wash_path-render (render stack)
          (starts_at_root-or_root _ (starts_at_root-render_names stack))
        ∙ ap (λ s. some (render s))
            (ap (resolve_all []) (names_of-or_root (render_names stack))
              ∙ resolve_all-render_names (names_from-AreNames [] path no_char no_names)))
