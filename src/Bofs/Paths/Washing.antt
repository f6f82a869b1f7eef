-- ===== src/Bofs/Paths/Washing.antt =====
-- fs/bofs/dir.c: what `BOFS_WashPath` makes of a path, next to the directories a walk along its names
-- passes.
use xbook.Prelude.{
  ltb, ℕ, zero, suc, ◌+◌, ◌≤◌, ◌<◌, ◌≡◌, refl, ap, sym, ◌∙◌, false, none, some, List, [], ◌∷◌, ◌++◌,
  ◌==◌, if◌then◌else◌, Bool-cases, inl, inr, length, append_assoc, arith, length-append, Bool, true,
  ◌&&◌,
}
use xbook.Bofs.Directory.{same_name}
use xbook.Bofs.Paths.{
  starts_at_root, skip_slashes, take_name, or_null, parse_path_afterward, before_last, go_up, dot,
  dot_dot, root, wash_name, wash_loop, wash_path,
}
use xbook.Bofs.Paths.Names.{
  emit, names_of, names_from, names_of-skip_slashes, names_from-take_name, length-skip_slashes,
  take_name-skip_slashes, length-take_name,
}

-- The names from the one below the root to the present one, the present one first
abbrev parent : List (List ℕ) → List (List ℕ)
parent [] = []
parent (name ∷ above) = above

unfoldable pub resolve : List (List ℕ) → List ℕ → List (List ℕ)
resolve stack name =
    if same_name dot_dot name
    then parent stack
    else if same_name dot name
    then stack
    else name ∷ stack

unfoldable pub resolve_all : List (List ℕ) → List (List ℕ) → List (List ℕ)
resolve_all stack [] = stack
resolve_all stack (name ∷ names) = resolve_all (resolve stack name) names

pub resolve_all-append :
    (stack xs ys : List (List ℕ))
    → resolve_all stack (xs ++ ys) ≡ resolve_all (resolve_all stack xs) ys
unfolding resolve_all
resolve_all-append stack [] ys = refl
resolve_all-append stack (x ∷ xs) ys = resolve_all-append (resolve stack x) xs ys

unfoldable pub render_names : List (List ℕ) → List ℕ
render_names [] = []
render_names (name ∷ above) = render_names above ++ b'/' ∷ name

abbrev pub or_root : List ℕ → List ℕ
or_root [] = root
or_root (c ∷ path) = c ∷ path

abbrev pub render : List (List ℕ) → List ℕ
render stack = or_root (render_names stack)

pub data IsSlashless : List ℕ → Type 0 where
  no_char : IsSlashless []
  more_chars :
      (c : ℕ) (name : List ℕ) → (c == b'/') ≡ false → IsSlashless name → IsSlashless (c ∷ name)

-- A name that stays: it has a character, no slash, and is neither `.` nor `..`.
pub record IsName (name : List ℕ) : Type 0 where
  pub nonempty : 0 < length name
  pub slashless : IsSlashless name
  pub not_dot_dot : same_name dot_dot name ≡ false
  pub not_dot : same_name dot name ≡ false

pub data AreNames : List (List ℕ) → Type 0 where
  no_names : AreNames []
  more_names :
      {name : List ℕ} {names : List (List ℕ)}
      → IsName name
      → AreNames names
      → AreNames (name ∷ names)

before_last-none : {name : List ℕ} → IsSlashless name → before_last name ≡ none
unfolding before_last
before_last-none no_char = refl
before_last-none (more_chars c name s ok) = rw (before_last-none ok) (rw s refl)

pub take_name_whole : {name : List ℕ} → IsSlashless name → take_name name ≡ (name, [])
unfolding take_name
take_name_whole no_char = refl
take_name_whole (more_chars c name s ok) = rw s (rw (take_name_whole ok) refl)

before_last-append :
    (path name : List ℕ) → before_last name ≡ none → before_last (path ++ b'/' ∷ name) ≡ some path
unfolding before_last
before_last-append [] name s = rw s refl
before_last-append (c ∷ path) name s = rw (before_last-append path name s) refl

go_up-or_root : (path above : List ℕ) → go_up path (some above) ≡ or_root above
go_up-or_root path [] = refl
go_up-or_root path (c ∷ above) = refl

or_root-append : (path name : List ℕ) → or_root (path ++ b'/' ∷ name) ≡ path ++ b'/' ∷ name
or_root-append [] name = refl
or_root-append (c ∷ path) name = refl

-- Going up from the present directory is to the one above it, and from the root to the root.
go_up-render :
    {stack : List (List ℕ)}
    → AreNames stack
    → go_up (render stack) (before_last (render stack)) ≡ render (parent stack)
unfolding render_names before_last
go_up-render no_names = refl
go_up-render (more_names {name} {names} n ns) = rw or_root-append (
    rw (before_last-append (render_names names) name (before_last-none n.slashless))
      (go_up-or_root (render_names names ++ b'/' ∷ name) (render_names names)))

long-not_root : (path : List ℕ) → 1 < length path → same_name path root ≡ false
long-not_root [] l = refl
long-not_root (c ∷ []) l = absurd (omega (arith, l))
long-not_root (c ∷ d ∷ path) l = elim (Bool-cases (c == b'/')) [
  | inl s ↦ rw s refl
  | inr s ↦ rw s refl
]

slash-long :
    {name : List ℕ} (names : List (List ℕ))
    → IsName name
    → 1 < length (render_names names ++ b'/' ∷ name)
slash-long {name} names ok =
    omega (arith, length-append (render_names names) (b'/' ∷ name), ok.nonempty)

push-render :
    {stack : List (List ℕ)} (name : List ℕ)
    → AreNames stack
    → (if same_name (render stack) root then render stack else render stack ++ root) ++ name
      ≡ render (name ∷ stack)
unfolding render_names
push-render name no_names = refl
push-render name (more_names {name = n} {names} ok oks) = rw or_root-append (
    rw (long-not_root (render_names names ++ b'/' ∷ n) (slash-long names ok)) (
      append_assoc (render_names names ++ b'/' ∷ n) root name
      ∙ sym (or_root-append (render_names names ++ b'/' ∷ n) name)))

wash_name-render :
    {stack : List (List ℕ)} (name : List ℕ)
    → AreNames stack
    → wash_name (render stack) name ≡ render (resolve stack name)
unfolding wash_name resolve
wash_name-render {stack} name ok = elim (Bool-cases (same_name dot_dot name)) [
  | inl up ↦ rw up (go_up-render ok)
  | inr down ↦ elim (Bool-cases (same_name dot name)) [
    | inl same ↦ rw down (rw same refl)
    | inr other ↦ rw down (rw other (push-render name ok))
  ]
]

parent-AreNames : {stack : List (List ℕ)} → AreNames stack → AreNames (parent stack)
parent-AreNames no_names = no_names
parent-AreNames (more_names n ns) = ns

pub resolve-AreNames :
    {stack : List (List ℕ)} {name : List ℕ}
    → 0 < length name
    → IsSlashless name
    → AreNames stack
    → AreNames (resolve stack name)
unfolding resolve
resolve-AreNames {stack} {name} long s ok = elim (Bool-cases (same_name dot_dot name)) [
  | inl up ↦ rw up (parent-AreNames ok)
  | inr down ↦ elim (Bool-cases (same_name dot name)) [
    | inl same ↦ rw down (rw same ok)
    | inr other ↦ rw down (
        rw other (
          more_names
            (record { nonempty = long; slashless = s; not_dot_dot = down; not_dot = other }) ok))
  ]
]

take_name-IsSlashless : (path : List ℕ) → IsSlashless (take_name path).0
unfolding take_name
take_name-IsSlashless [] = no_char
take_name-IsSlashless (c ∷ path) = elim (Bool-cases (c == b'/')) [
  | inl s ↦ rw s no_char
  | inr s ↦ rw s (more_chars c (take_name path).0 s (take_name-IsSlashless path))
]

cons-not_nil : {c : ℕ} {path : List ℕ} → (c ∷ path) ≡ [] → ⊥
cons-not_nil e = cc

-- A round, if the later ones do what they should
module _ {stack : List (List ℕ)} (fuel : ℕ) (ok : AreNames stack)
    (later : (below : List (List ℕ)) (path : List ℕ)
      → AreNames below
      → length path < fuel
      → wash_loop fuel (render below) (parse_path_afterward path)
        ≡ some (render (resolve_all below (names_of path)))) where
  wash_round :
      (name path : List ℕ)
      → IsSlashless name
      → (name ≡ [] → path ≡ [])
      → length name + length path ≤ fuel
      → wash_loop (suc fuel) (render stack) (or_null (name, path))
        ≡ some (render (resolve_all stack (emit name (names_of path))))
  unfolding wash_loop resolve_all names_from
  wash_round [] [] s e l = refl
  wash_round [] (d ∷ path) s e l = absurd (cons-not_nil (e refl))
  wash_round (c ∷ name) [] s e l = ap some (wash_name-render (c ∷ name) ok)
  wash_round (c ∷ name) (d ∷ path) s e l = rw (wash_name-render (c ∷ name) ok) (
      later (resolve stack (c ∷ name)) (d ∷ path) (resolve-AreNames (omega arith) s ok)
        (omega (arith, l)))

wash_loop_lem :
    (fuel : ℕ) (stack : List (List ℕ)) (path : List ℕ)
    → AreNames stack
    → length path < fuel
    → wash_loop fuel (render stack) (parse_path_afterward path)
      ≡ some (render (resolve_all stack (names_of path)))
unfolding parse_path_afterward
wash_loop_lem zero stack path ok l = absurd (omega (arith, l))
wash_loop_lem (suc fuel) stack path ok l =
    let p = skip_slashes path in
    let r = take_name p in
    wash_round fuel ok (wash_loop_lem fuel) r.0 r.1 (take_name-IsSlashless p)
      (take_name-skip_slashes path) (omega (arith, l, length-take_name p, length-skip_slashes path))
    ∙ ap (λ (names : List (List ℕ)). some (render (resolve_all stack names)))
        (sym (names_from-take_name [] p) ∙ names_of-skip_slashes path)

-- No name overruns the buffer `name` of `BOFS_WashPath`, which has 250 bytes.
unfoldable pub names_fit : List (List ℕ) → Bool
names_fit [] = true
names_fit (name ∷ names) = ltb (length name) 250 && names_fit names

pub wash_path-render :
    (path : List ℕ)
    → starts_at_root path ≡ true
    → wash_path path ≡ some (render (resolve_all [] (names_of path)))
unfolding wash_path render_names
wash_path-render path s =
    rw (wash_path, s) (wash_loop_lem (length path + 1) [] path no_names (omega arith))

-- A path that begins with a slash and has no name of 250 characters or more, which the buffer
-- `name` would not hold, is washed to that of the directory which a walk from the root along its names
-- ends in, where `..` goes to the directory above, and from the root to the root, `.` stays, and any
-- other name goes down: the loop ends.
pub wash_path_lem :
    (path : List ℕ)
    → starts_at_root path ≡ true
    → names_fit (names_of path) ≡ true
    → wash_path path ≡ some (render (resolve_all [] (names_of path)))
wash_path_lem path s fit = wash_path-render path s
