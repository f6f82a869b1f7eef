-- ===== src/Bofs/Directory/Flat.antt =====
-- The entries of a directory one after another, as if it had one block.
use xbook.Prelude.{
  ℕ, zero, suc, ◌+◌, ◌<◌, ◌≡◌, refl, ap, sym, ◌∙◌, Bool, true, false, ◌&&◌, Option, none, some,
  List, [], ◌∷◌, ◌++◌, ◌==◌, if◌then◌else◌, Bool-cases, Option-cases, inl, inr, arith,
}
use xbook.Task.{write_at}
use xbook.Bofs.Directory.{
  DirEntry, Blocks, is_nameless, is_valid, same_name, search_slots, search_blocks, load_slots,
  load_blocks, or_else, sync_slots, sync_blocks, slot_result, search_then, after_slots,
}

abbrev pub flat : ℕ → ℕ → Blocks → List DirEntry
flat id zero blocks = []
flat id (suc count) blocks = blocks id ++ flat (id + 1) count blocks

-- The first valid entry of the name before the first without a name
unfoldable pub search_flat : List ℕ → List DirEntry → Option DirEntry
search_flat name [] = none
search_flat name (e ∷ slots) =
    if is_nameless e
    then none
    else if same_name e.name name && is_valid e
    then some e
    else search_flat name slots

abbrev pub Works : (ℕ → Bool) → Type 0
Works f = (n : ℕ) → f n ≡ true

search_flat-append :
    (name : List ℕ) (xs ys : List DirEntry)
    → search_flat name (xs ++ ys) ≡ search_then (search_slots name xs) (search_flat name ys)
unfolding search_flat search_slots
search_flat-append name [] ys = refl
search_flat-append name (e ∷ xs) ys = elim (Bool-cases (is_nameless e)) [
  | inl n ↦ rw n refl
  | inr n ↦ elim (Bool-cases (same_name e.name name && is_valid e)) [
    | inl h ↦ rw (n, h) refl
    | inr h ↦ rw (n, h) (search_flat-append name xs ys)
  ]
]

pub search_blocks-flat :
    (reads : ℕ → Bool) (name : List ℕ) (id count : ℕ) (blocks : Blocks)
    → Works reads
    → search_blocks reads name id count blocks ≡ search_flat name (flat id count blocks)
unfolding search_blocks search_flat
search_blocks-flat reads name id zero blocks ok = refl
search_blocks-flat reads name id (suc count) blocks ok =
    rw (ok id, search_blocks-flat reads name (id + 1) count blocks ok)
      (sym (search_flat-append name (blocks id) (flat (id + 1) count blocks)))

abbrev sync_then :
    List DirEntry
    → List DirEntry
    → Option (ℕ × List DirEntry)
    → Option (ℕ × List DirEntry)
    → Option (ℕ × List DirEntry)
sync_then xs ys (some (r, xs')) rest = some (r, xs' ++ ys)
sync_then xs ys none rest = after_slots xs rest

sync_then-cons :
    (e : DirEntry) (xs ys : List DirEntry) (here rest : Option (ℕ × List DirEntry))
    → after_slots (e ∷ []) (sync_then xs ys here rest)
      ≡ sync_then (e ∷ xs) ys (after_slots (e ∷ []) here) rest
sync_then-cons e xs ys none none = refl
sync_then-cons e xs ys none (some (r, zs)) = refl
sync_then-cons e xs ys (some (r, zs)) rest = refl

after_slots-nil : (o : Option (ℕ × List DirEntry)) → o ≡ after_slots [] o
after_slots-nil none = refl
after_slots-nil (some (r, zs)) = refl

sync_slots-append :
    (child : DirEntry) (xs ys : List DirEntry)
    → sync_slots child (xs ++ ys) ≡ sync_then xs ys (sync_slots child xs) (sync_slots child ys)
unfolding sync_slots
sync_slots-append child [] ys = after_slots-nil (sync_slots child ys)
sync_slots-append child (e ∷ xs) ys = elim (Option-cases (slot_result child e)) [
  | inr (r, here) ↦ rw here refl
  | inl on ↦ rw on (
      rw (sync_slots-append child xs ys)
        (sync_then-cons e xs ys (sync_slots child xs) (sync_slots child ys)))
]

sync_found :
    (child : DirEntry) (xs ys : List DirEntry) (r : ℕ) (xs' : List DirEntry)
    → sync_slots child xs ≡ some (r, xs')
    → some (r, xs' ++ ys) ≡ sync_slots child (xs ++ ys)
sync_found child xs ys r xs' e = rw (sync_slots-append child xs ys, e) refl

sync_passed :
    (child : DirEntry) (xs ys : List DirEntry) (r : ℕ) (zs : List DirEntry)
    → sync_slots child xs ≡ none
    → sync_slots child (xs ++ ys) ≡ some (r, zs)
    → (ys' : List DirEntry) × (sync_slots child ys ≡ some (r, ys')) × (zs ≡ xs ++ ys')
sync_passed child xs ys r zs none_here e =
    let split : sync_slots child (xs ++ ys) ≡ after_slots xs (sync_slots child ys) =
      rw (sync_slots-append child xs ys, none_here) refl in
    elim (Option-cases (sync_slots child ys)) [
      | inl gone ↦
          let bad : after_slots xs (sync_slots child ys) ≡ none = rw gone refl in absurd (cc)
      | inr ((r', ys'), there) ↦
          let good : after_slots xs (sync_slots child ys) ≡ some (r', xs ++ ys') = rw there refl in
          let both : ◌≡◌ {A = Option (ℕ × List DirEntry)} (some (r', xs ++ ys')) (some (r, zs)) =
            sym good ∙ sym split ∙ e in
          let same : r' ≡ r = cc in (ys', there ∙ ap (λ (n : ℕ). some (n, ys')) same, cc)
    ]

-- Nothing from `id` on changes with a block before it.
flat-write_at :
    (id j count : ℕ) (slots : List DirEntry) (blocks : Blocks)
    → j < id
    → flat id count (write_at blocks j slots) ≡ flat id count blocks
flat-write_at id j zero slots blocks lt = refl
flat-write_at id j (suc count) slots blocks lt =
    let other : (j == id) ≡ false = ground arith in
    rw (other, flat-write_at (id + 1) j count slots blocks (omega arith)) refl

sync_blocks-before :
    (reads writes : ℕ → Bool) (child : DirEntry) (j id count : ℕ) (blocks : Blocks)
    → j < id
    → (sync_blocks reads writes child id count blocks).1 j ≡ blocks j
unfolding sync_blocks
sync_blocks-before reads writes child j id zero blocks lt = refl
sync_blocks-before reads writes child j id (suc count) blocks lt = elim (Bool-cases (reads id)) [
  | inr bad ↦ rw bad refl
  | inl good ↦ elim (Option-cases (sync_slots child (blocks id))) [
    | inl none_here ↦
        rw (good, none_here)
          (sync_blocks-before reads writes child j (id + 1) count blocks (omega arith))
    | inr ((r, slots), hit) ↦ elim (Bool-cases (writes id)) [
      | inl w ↦ let other : (id == j) ≡ false = ground arith in rw (good, hit, w, other) refl
      | inr w ↦ rw (good, hit, w) refl
    ]
  ]
]

-- The walk over the blocks writes the child where a walk over the entries does.
pub sync_blocks-flat :
    (reads writes : ℕ → Bool) (child : DirEntry) (id count : ℕ) (blocks : Blocks) (r : ℕ)
    (slots : List DirEntry)
    → Works reads
    → Works writes
    → sync_slots child (flat id count blocks) ≡ some (r, slots)
    → ((sync_blocks reads writes child id count blocks).0 ≡ r)
      × (flat id count (sync_blocks reads writes child id count blocks).1 ≡ slots)
unfolding sync_blocks sync_slots
sync_blocks-flat reads writes child id zero blocks r slots ok ok' e =
    let nothing : sync_slots child [] ≡ none = refl in cc
sync_blocks-flat reads writes child id (suc count) blocks r slots ok ok' e =
    let rest = flat (id + 1) count blocks in
    elim (Option-cases (sync_slots child (blocks id))) [
      | inr ((r', here), hit) ↦
          let whole : ◌≡◌ {A = Option (ℕ × List DirEntry)} (some (r', here ++ rest))
              (some (r, slots)) =
            sync_found child (blocks id) rest r' here hit ∙ e in
          let first : r' ≡ r = cc in
          let all : here ++ rest ≡ slots = cc in
          let self : (id == id) ≡ true = ground arith in
          rw (ok id, hit, ok' id)
            (first, rw (self, flat-write_at (id + 1) id count here blocks (omega arith)) all)
      | inl none_here ↦
          let (slots', there, whole) = sync_passed child (blocks id) rest r slots none_here e in
          let ih =
            sync_blocks-flat reads writes child (id + 1) count blocks r slots' ok ok' there in
          let before =
            sync_blocks-before reads writes child id (id + 1) count blocks (omega arith) in
          rw (ok id, none_here)
            (
              ih.0,
              ap
                    (λ (b : List DirEntry).
                      b
                      ++ flat (id + 1) count
                          (sync_blocks reads writes child (id + 1) count blocks).1)
                    before
                  ∙ ap (λ (t : List DirEntry). blocks id ++ t) ih.1
                  ∙ sym whole,
            )
    ]

pub sync_blocks-none :
    (reads writes : ℕ → Bool) (child : DirEntry) (id count : ℕ) (blocks : Blocks)
    → Works reads
    → sync_slots child (flat id count blocks) ≡ none
    → (sync_blocks reads writes child id count blocks).0 ≡ 0
unfolding sync_blocks
sync_blocks-none reads writes child id zero blocks ok e = refl
sync_blocks-none reads writes child id (suc count) blocks ok e =
    let rest = flat (id + 1) count blocks in
    elim (Option-cases (sync_slots child (blocks id))) [
      | inr ((r', here), hit) ↦
          let bad : ◌≡◌ {A = Option (ℕ × List DirEntry)} (some (r', here ++ rest)) none =
            sync_found child (blocks id) rest r' here hit ∙ e in
          absurd (cc)
      | inl none_here ↦
          rw (ok id, none_here)
            (sync_blocks-none reads writes child (id + 1) count blocks ok
              (elim (Option-cases (sync_slots child rest)) [
                | inl gone ↦ gone
                | inr ((r', there), hit) ↦
                    let split : sync_slots child (blocks id ++ rest)
                        ≡ some (r', blocks id ++ there) =
                      rw (sync_slots-append child (blocks id) rest, none_here, hit) refl in
                    absurd (cc)
              ]))
    ]

load_slots-append :
    (name : List ℕ) (xs ys : List DirEntry)
    → load_slots name (xs ++ ys) ≡ or_else (load_slots name xs) (load_slots name ys)
unfolding load_slots
load_slots-append name [] ys = refl
load_slots-append name (e ∷ xs) ys = elim (Bool-cases (same_name e.name name && is_valid e)) [
  | inl h ↦ rw h refl
  | inr h ↦ rw h (load_slots-append name xs ys)
]

pub load_blocks-flat :
    (reads : ℕ → Bool) (name : List ℕ) (id count : ℕ) (blocks : Blocks)
    → Works reads
    → load_blocks reads name id count blocks ≡ load_slots name (flat id count blocks)
unfolding load_blocks load_slots
load_blocks-flat reads name id zero blocks ok = refl
load_blocks-flat reads name id (suc count) blocks ok =
    rw (ok id, load_blocks-flat reads name (id + 1) count blocks ok)
      (sym (load_slots-append name (blocks id) (flat (id + 1) count blocks)))
