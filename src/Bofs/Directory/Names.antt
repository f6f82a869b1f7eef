-- ===== src/Bofs/Directory/Names.antt =====
-- fs/bofs/dir_entry.c: the entries of a directory one after another, before and after one of them
-- is written.
use xbook.Prelude.{
  ℕ, ◌+◌, ◌≤◌, ◌≡◌, ◌≢◌, refl, ap, sym, ◌∙◌, Bool, true, false, not, ◌&&◌, ◌||◌, Option, none, some,
  List, [], ◌∷◌, ◌==◌, if◌then◌else◌, Bool-cases, Option-cases, inl, inr, ◌⊎◌, arith,
}
use xbook.Bofs.Directory.{
  DirEntry, type_invalid, is_nameless, is_valid, same_name, load_slots, sync_slots, slot_result,
}
use xbook.Bofs.Directory.Flat.{search_flat}

pub same_name_refl : (name : List ℕ) → same_name name name ≡ true
same_name_refl [] = refl
same_name_refl (c ∷ name) = ground (arith, same_name_refl name)

pub same_name→eq : (a b : List ℕ) → same_name a b ≡ true → a ≡ b
same_name→eq [] [] e = refl
same_name→eq [] (d ∷ b) e = cc
same_name→eq (c ∷ a) [] e = cc
same_name→eq (c ∷ a) (d ∷ b) e =
    let heads : c ≡ d = ground arith in let tails : a ≡ b = same_name→eq a b (ground arith) in cc

-- Where the child is written, and where the walk goes on
written :
    (child e : DirEntry) (slots : List DirEntry) (r : ℕ)
    → slot_result child e ≡ some r
    → sync_slots child (e ∷ slots) ≡ some (r, child ∷ slots)
unfolding sync_slots
written child e slots r h = rw (sync_slots, h) refl

-- A slot that is passed over holds a valid entry of another name.
passed_over :
    (child e : DirEntry)
    → slot_result child e ≡ none
    → (is_nameless e ≡ false) × (is_valid e ≡ true) × (same_name e.name child.name ≡ false)
passed_over child e h = ground arith

sync_cons :
    (child e : DirEntry) (slots : List DirEntry) (r : ℕ) (after : List DirEntry)
    → sync_slots child (e ∷ slots) ≡ some (r, after)
    → ((slot_result child e ≡ some r) × (after ≡ child ∷ slots))
      ⊎ ((rest : List DirEntry) × (slot_result child e ≡ none)
          × (sync_slots child slots ≡ some (r, rest))
          × (after ≡ e ∷ rest))
unfolding sync_slots
sync_cons child e slots r after h = elim (Option-cases (slot_result child e)) [
  | inr (r', w) ↦
      let both : ◌≡◌ {A = Option (ℕ × List DirEntry)} (some (r', child ∷ slots)) (some (r, after)) =
        sym (written child e slots r' w) ∙ h in
      let same : r' ≡ r = cc in inl (w ∙ ap (λ (n : ℕ). some n) same, cc)
  | inl w ↦ elim (Option-cases (sync_slots child slots)) [
    | inl gone ↦
        let bad : sync_slots child (e ∷ slots) ≡ none = rw (sync_slots, w, gone) refl in absurd (cc)
    | inr ((r', rest), g) ↦
        let step : sync_slots child (e ∷ slots) ≡ some (r', e ∷ rest) =
          rw (sync_slots, w, g) refl in
        let both : ◌≡◌ {A = Option (ℕ × List DirEntry)} (some (r', e ∷ rest)) (some (r, after)) =
          sym step ∙ h in
        let same : r' ≡ r = cc in inr (rest, w, g ∙ ap (λ (n : ℕ). some (n, rest)) same, cc)
  ]
]

pub found_after :
    (child : DirEntry) (slots : List DirEntry) (r : ℕ) (after : List DirEntry)
    → is_valid child ≡ true
    → is_nameless child ≡ false
    → sync_slots child slots ≡ some (r, after)
    → search_flat child.name after ≡ some child
unfolding search_flat sync_slots
found_after child [] r after valid named h = cc
found_after child (e ∷ slots) r after valid named h = elim (sync_cons child e slots r after h) [
  | inl (w, eq) ↦ rw eq (rw (named, same_name_refl child.name, valid) refl)
  | inr (rest, w, g, eq) ↦
      let (n, v, s) = passed_over child e w in
      rw eq (rw (n, s) (found_after child slots r rest valid named g))
]

abbrev pub all_nameless : List DirEntry → Bool
all_nameless [] = true
all_nameless (e ∷ slots) = is_nameless e && all_nameless slots

-- No entry stands behind one without a name.
abbrev pub packed : List DirEntry → Bool
packed [] = true
packed (e ∷ slots) = if is_nameless e then all_nameless slots else packed slots

-- No valid entry of another name has the child's inode: the walk would rename it.
abbrev pub keeps_names : DirEntry → List DirEntry → Bool
keeps_names child [] = true
keeps_names child (e ∷ slots) =
    (not (not (is_nameless e) && (is_valid e && (e.inode == child.inode && is_valid child)))
      || same_name e.name child.name)
    && keeps_names child slots

search_nameless :
    (name : List ℕ) (slots : List DirEntry)
    → all_nameless slots ≡ true
    → search_flat name slots ≡ none
unfolding search_flat
search_nameless name [] h = refl
search_nameless name (e ∷ slots) h = let n : is_nameless e ≡ true = ground arith in rw n refl

-- A search for another name passes the child, and would have passed what was in its place.
other_name :
    (child e : DirEntry) (slots : List DirEntry) (r : ℕ) (name : List ℕ)
    → is_nameless child ≡ false
    → name ≢ child.name
    → packed (e ∷ slots) ≡ true
    → keeps_names child (e ∷ slots) ≡ true
    → slot_result child e ≡ some r
    → search_flat name (child ∷ slots) ≡ search_flat name (e ∷ slots)
unfolding search_flat
other_name child e slots r name named ne pack keep w =
    let apart : same_name child.name name ≡ false = elim (Bool-cases (same_name child.name name)) [
      | inl m ↦ absurd (ne (sym (same_name→eq child.name name m)))
      | inr d ↦ d
    ] in
    elim (Bool-cases (is_nameless e)) [
      | inl n ↦
          let gone : search_flat name slots ≡ none = search_nameless name slots (ground arith) in
          rw (n, named, apart) gone
      | inr n ↦
          let skip : (same_name e.name name && is_valid e) ≡ false =
            elim (Bool-cases (same_name e.name name && is_valid e)) [
              | inl both ↦
                  let m : same_name e.name name ≡ true = ground arith in
                  let c : same_name e.name child.name ≡ true = ground arith in
                  absurd (ne (sym (same_name→eq e.name name m) ∙ same_name→eq e.name child.name c))
              | inr d ↦ d
            ] in
          rw (n, named, apart, skip) refl
    ]

pub others_after :
    (child : DirEntry) (slots : List DirEntry) (r : ℕ) (after : List DirEntry) (name : List ℕ)
    → is_nameless child ≡ false
    → name ≢ child.name
    → packed slots ≡ true
    → keeps_names child slots ≡ true
    → sync_slots child slots ≡ some (r, after)
    → search_flat name after ≡ search_flat name slots
unfolding search_flat sync_slots
others_after child [] r after name named ne pack keep h = cc
others_after child (e ∷ slots) r after name named ne pack keep h =
    elim (sync_cons child e slots r after h) [
      | inl (w, eq) ↦ rw eq (other_name child e slots r name named ne pack keep w)
      | inr (rest, w, g, eq) ↦
          let (n, v, s) = passed_over child e w in
          let ih = others_after child slots r rest name named ne (ground arith) (ground arith) g in
          elim (Bool-cases (same_name e.name name && is_valid e)) [
            | inl hit ↦ rw (eq, n, hit) refl
            | inr miss ↦ rw (eq, n, miss) ih
          ]
    ]

-- How many valid entries have a name, and whether an invalid entry stands before the first of them
abbrev pub count_name : List ℕ → List DirEntry → ℕ
count_name name [] = 0
count_name name (e ∷ slots) =
    (if same_name e.name name && is_valid e then 1 else 0) + count_name name slots

abbrev pub is_stale : List ℕ → List DirEntry → Bool
is_stale name [] = false
is_stale name (e ∷ slots) =
    if is_valid e then not (same_name e.name name) && is_stale name slots else true

absent :
    (name : List ℕ) (slots : List DirEntry)
    → count_name name slots ≡ 0
    → search_flat name slots ≡ none
unfolding search_flat
absent name [] h = refl
absent name (e ∷ slots) h =
    let miss : (same_name e.name name && is_valid e) ≡ false = ground arith in
    elim (Bool-cases (is_nameless e)) [
      | inl n ↦ rw n refl
      | inr n ↦ rw (n, miss) (absent name slots (ground arith))
    ]

-- The child written back as invalid
abbrev pub gone : DirEntry → DirEntry
gone child = record child { type = type_invalid }

pub removed_after :
    (child : DirEntry) (slots : List DirEntry) (r : ℕ) (after : List DirEntry)
    → is_nameless child ≡ false
    → search_flat child.name slots ≡ some child
    → count_name child.name slots ≤ 1
    → sync_slots (gone child) slots ≡ some (r, after)
    → search_flat child.name after ≡ (if is_stale child.name slots then some child else none)
unfolding search_flat sync_slots
removed_after child [] r after named hit once h = cc
removed_after child (e ∷ slots) r after named hit once h = elim (Bool-cases (is_nameless e)) [
  | inl n ↦
      let bad : search_flat child.name (e ∷ slots) ≡ none = rw (search_flat, n) refl in absurd (cc)
  | inr n ↦ elim (sync_cons (gone child) e slots r after h) [
    | inl (w, eq) ↦ rw eq (
        rw (named, same_name_refl child.name)
          (elim (Bool-cases (is_valid e)) [
            | inl v ↦
                let s : same_name e.name child.name ≡ true = ground arith in
                rw (v, s) (absent child.name slots (ground arith))
            | inr v ↦
                let skip : (same_name e.name child.name && is_valid e) ≡ false = ground arith in
                let on : search_flat child.name (e ∷ slots) ≡ search_flat child.name slots =
                  rw (search_flat, n, skip) refl in
                rw v (sym on ∙ hit)
          ]))
    | inr (rest, w, g, eq) ↦
        let (_, v, s) = passed_over (gone child) e w in
        let on : search_flat child.name (e ∷ slots) ≡ search_flat child.name slots =
          rw (search_flat, n, s) refl in
        let ih = removed_after child slots r rest named (sym on ∙ hit) (ground arith) g in
        rw (eq, n, s, v) ih
  ]
]

load_nameless :
    (name : List ℕ) (slots : List DirEntry)
    → same_name [] name ≡ false
    → all_nameless slots ≡ true
    → load_slots name slots ≡ none
unfolding load_slots
load_nameless name [] named h = refl
load_nameless name (e ∷ slots) named h =
    let n : e.name ≡ [] = same_name→eq e.name [] (ground arith) in
    let miss : same_name e.name name ≡ false = ap (λ (m : List ℕ). same_name m name) n ∙ named in
    rw miss (load_nameless name slots named (ground arith))

pub load_flat :
    (name : List ℕ) (slots : List DirEntry)
    → same_name [] name ≡ false
    → packed slots ≡ true
    → load_slots name slots ≡ search_flat name slots
unfolding load_slots search_flat
load_flat name [] named pack = refl
load_flat name (e ∷ slots) named pack = elim (Bool-cases (is_nameless e)) [
  | inl n ↦
      let n' : e.name ≡ [] = same_name→eq e.name [] n in
      let miss : same_name e.name name ≡ false = ap (λ (m : List ℕ). same_name m name) n' ∙ named in
      rw (n, miss) (load_nameless name slots named (ground arith))
  | inr n ↦ elim (Bool-cases (same_name e.name name && is_valid e)) [
    | inl hit ↦ rw (n, hit) refl
    | inr miss ↦ rw (n, miss) (load_flat name slots named (ground arith))
  ]
]
