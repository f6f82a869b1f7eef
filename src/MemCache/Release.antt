-- ===== src/MemCache/Release.antt =====
-- `__GroupFreeObject` takes back an object in use.
use xbook.Prelude.{
  ℕ, suc, ◌+◌, ◌-◌, ◌*◌, ◌%◌, ◌^◌, ◌≤◌, ◌<◌, ◌≡◌, if◌then◌else◌, true, false, some, List, [], ◌∷◌,
  ◌++◌, ◌==◌, Bool-cases, inl, inr, arith,
}
use native.Mathlib.Nat.{mul-le-mul_right, add-mul, mul-div_cancel}
use xbook.Bitmap.{scan_test}
use xbook.MemCache.{
  MemGroup, MemCache, find_group, unlink_group, put_group, free_slot, group_free_object,
  object_index,
}
use xbook.MemCache.Counts.{one}
use xbook.MemCache.Invariant.{
  All, All-append, sum_of, sum_of-append, total, live, covers, at_address, live_in, IsGroup, IsFull,
  IsPartial, IsFree, IsCache,
}
use xbook.MemCache.Slots.{
  with_slot, covers-with_slot, at_address-with_slot, live-with_slot, give-IsGroup,
}
use xbook.MemCache.Lists.{
  find_group-append, All-find_group, All-unlink_group, All-put_group, sum_of-unlink_group,
  sum_of-put_group, find_group-last, find_group-put_group, unlink_group-absent, put_group-absent,
  sum_of-found,
}

-- What freeing `object` changes: it is not in use any more.
abbrev pub Freed : MemCache → ℕ → MemCache → Type 0
Freed c object c' = IsCache c' × ((a : ℕ) → live_in c a ≡ live_in c' a + one (object == a))

-- The group with the object given back
abbrev pub given_back : MemGroup → ℕ → MemGroup
given_back g k =
    with_slot g k 0 ((g.using_count + 2 ^ 32 - 1) % 2 ^ 32) ((g.free_count + 1) % 2 ^ 32)

-- A group without objects in use is among the free groups, and any other among the partial ones.
abbrev pub Placed : MemCache → MemGroup → Type 0
Placed c g =
    find_group g.address (if g.using_count == 0 then c.free_groups else c.partial_groups) ≡ some g

module _ (c : MemCache) (g : MemGroup) (k : ℕ) (ok : IsCache c) (lt : k < c.object_number)
    (used : scan_test g.bytes g.map k ≡ true) where
  -- Wherever the group goes, as long as it replaces the one before.
  freed :
      (full partial free : List MemGroup)
      → All (IsFull c.object_number) full
      → All (IsPartial c.object_number) partial
      → All (IsFree c.object_number) free
      → ((f : MemGroup → ℕ)
          → sum_of f full + sum_of f partial + sum_of f free + f g ≡ total f c + f (given_back g k))
      → Freed c
          (g.objects + k * c.object_size)
          (record c { full_groups = full; partial_groups = partial; free_groups = free })
  freed full partial free ok_full ok_partial ok_free moved =
      let n = c.object_number in
      let size = c.object_size in
      let using' = (g.using_count + 2 ^ 32 - 1) % 2 ^ 32 in
      let free' = (g.free_count + 1) % 2 ^ 32 in
      (
        record {
          sized = ok.sized;
          numbered = ok.numbered;
          bounded = ok.bounded;
          full = ok_full;
          partial = ok_partial;
          free = ok_free;
          apart = λ a. omega (
            arith,
            ok.apart a,
            moved (covers n size a),
            covers-with_slot n size a g k 0 using' free',
          );
          single = λ a.
              omega (
                arith,
                ok.single a,
                moved (at_address a),
                at_address-with_slot a g k 0 using' free',
              );
        },
        λ a. ground (arith, moved (live n size a), live-with_slot n size a g k 0 using' free' lt),
      )

  -- A full group
  free_full :
      find_group g.address c.full_groups ≡ some g
      → Placed (free_slot c g k) (given_back g k)
        × Freed c (g.objects + k * c.object_size) (free_slot c g k)
  unfolding free_slot sum_of
  free_full here =
      let n = c.object_number in
      let g' = given_back g k in
      let was = All-find_group (IsFull n) g.address c.full_groups g ok.full here in
      let fine = give-IsGroup n g k was.0 lt used in
      let one_here = ok.single g.address in
      let found = sum_of-found g.address c.full_groups g here in
      let keep1 = unlink_group-absent g.address c.partial_groups (omega arith) in
      let keep2 = unlink_group-absent g.address c.free_groups (omega arith) in
      let rest = All-unlink_group (IsFull n) g.address c.full_groups ok.full in
      let gone = λ (f : MemGroup → ℕ). sum_of-unlink_group f g.address c.full_groups g here in
      elim (Bool-cases (g'.using_count == 0)) [
        | inl e ↦
            rw (e, keep1, keep2)
              (
                find_group-last g' c.free_groups (omega arith),
                freed (unlink_group g.address c.full_groups) c.partial_groups
                    (c.free_groups ++ g' ∷ []) rest ok.partial
                    (All-append (IsFree n) c.free_groups (g' ∷ []) ok.free
                      ((fine.0, ground arith), tt))
                    (λ f. omega (arith, gone f, sum_of-append f c.free_groups (g' ∷ []))),
              )
        | inr e ↦
            let full : (g.using_count == n) ≡ true = ground (arith, was.1) in
            rw (e, full, keep1, keep2)
              (
                find_group-last g' c.partial_groups (omega arith),
                freed (unlink_group g.address c.full_groups) (c.partial_groups ++ g' ∷ [])
                    c.free_groups rest
                    (All-append (IsPartial n) c.partial_groups (g' ∷ []) ok.partial
                      ((fine.0, ground arith, omega (arith, fine.1, was.1, ok.bounded)), tt))
                    ok.free
                    (λ f. omega (arith, gone f, sum_of-append f c.partial_groups (g' ∷ []))),
              )
      ]

  -- A partial group
  free_partial :
      find_group g.address c.partial_groups ≡ some g
      → Placed (free_slot c g k) (given_back g k)
        × Freed c (g.objects + k * c.object_size) (free_slot c g k)
  unfolding free_slot sum_of
  free_partial here =
      let n = c.object_number in
      let g' = given_back g k in
      let was = All-find_group (IsPartial n) g.address c.partial_groups g ok.partial here in
      let fine = give-IsGroup n g k was.0 lt used in
      let one_here = ok.single g.address in
      let found = sum_of-found g.address c.partial_groups g here in
      elim (Bool-cases (g'.using_count == 0)) [
        | inl e ↦
            let keep1 = unlink_group-absent g.address c.full_groups (omega arith) in
            let keep2 = unlink_group-absent g.address c.free_groups (omega arith) in
            rw (e, keep1, keep2)
              (
                find_group-last g' c.free_groups (omega arith),
                freed c.full_groups (unlink_group g.address c.partial_groups)
                    (c.free_groups ++ g' ∷ []) ok.full
                    (All-unlink_group (IsPartial n) g.address c.partial_groups ok.partial)
                    (All-append (IsFree n) c.free_groups (g' ∷ []) ok.free
                      ((fine.0, ground arith), tt))
                    (λ f. omega (
                      arith,
                      sum_of-unlink_group f g.address c.partial_groups g here,
                      sum_of-append f c.free_groups (g' ∷ []),
                    )),
              )
        | inr e ↦
            let keep1 = put_group-absent g' c.full_groups (omega arith) in
            let keep2 = put_group-absent g' c.free_groups (omega arith) in
            let partial : (g.using_count == n) ≡ false = ground (arith, was.2) in
            rw (e, partial, keep1, keep2)
              (
                find_group-put_group g' c.partial_groups g here,
                freed c.full_groups (put_group g' c.partial_groups) c.free_groups ok.full
                    (All-put_group (IsPartial n) g' c.partial_groups
                      (fine.0, ground arith, omega (arith, was.2, ok.bounded)) ok.partial)
                    ok.free (λ f. omega (arith, sum_of-put_group f g' c.partial_groups g here)),
              )
      ]

-- The distance of an object from the first, divided by the size, is its number.
object_index_lem :
    (c : MemCache) (g : MemGroup) (k : ℕ)
    → 0 < c.object_size
    → k < c.object_number
    → g.objects + c.object_number * c.object_size < 2 ^ 32
    → object_index c g (g.objects + k * c.object_size) ≡ k
object_index_lem c g k pos lt fits =
    let size = c.object_size in
    let within : k * size + size ≤ c.object_number * size =
      grind (arith, mul-le-mul_right {m = suc k} {n = c.object_number} size lt, add-mul k 1 size) in
    let distance : (g.objects + k * size + 2 ^ 32 - g.objects) % 2 ^ 32 ≡ k * size = omega arith in
    rw distance (mul-div_cancel k pos)

free_slot-Freed :
    (c : MemCache) (g : MemGroup) (k : ℕ)
    → IsCache c
    → find_group g.address (c.full_groups ++ c.partial_groups ++ c.free_groups) ≡ some g
    → k < c.object_number
    → scan_test g.bytes g.map k ≡ true
    → IsGroup c.object_number g
      × Placed (free_slot c g k) (given_back g k)
      × Freed c (g.objects + k * c.object_size) (free_slot c g k)
free_slot-Freed c g k ok found lt used =
    let n = c.object_number in
    let a = g.address in
    elim (find_group-append a (c.full_groups ++ c.partial_groups) c.free_groups g found) [
      | inr last ↦
          let was = All-find_group (IsFree n) a c.free_groups g ok.free last in
          absurd (omega (arith, was.1, (give-IsGroup n g k was.0 lt used).1))
      | inl first ↦ elim (find_group-append a c.full_groups c.partial_groups g first) [
        | inl full ↦ (
          (All-find_group (IsFull n) a c.full_groups g ok.full full).0,
          (free_full c g k ok lt used full).0,
          (free_full c g k ok lt used full).1,
        )
        | inr partial ↦ (
          (All-find_group (IsPartial n) a c.partial_groups g ok.partial partial).0,
          (free_partial c g k ok lt used partial).0,
          (free_partial c g k ok lt used partial).1,
        )
      ]
    ]

-- `__GroupFreeObject` on an object in use keeps the lists of a cache in order, makes the object free,
-- touches no other object, and leaves the group, with its counts and its bit changed, among the free
-- groups if no object of it is in use any more, and otherwise among the partial ones.
pub group_free_object_lem :
    (c : MemCache) (g : MemGroup) (k : ℕ)
    → IsCache c
    → find_group g.address (c.full_groups ++ c.partial_groups ++ c.free_groups) ≡ some g
    → k < c.object_number
    → scan_test g.bytes g.map k ≡ true
    → g.objects + c.object_number * c.object_size < 2 ^ 32
    → (c' : MemCache) × (group_free_object g.address (g.objects + k * c.object_size) c ≡ some c')
      × Placed c' (given_back g k)
      × Freed c (g.objects + k * c.object_size) c'
unfolding group_free_object
group_free_object_lem c g k ok found lt used fits =
    let n = c.object_number in
    let (group_ok, placed, done) = free_slot-Freed c g k ok found lt used in
    let at = object_index_lem c g k ok.sized lt fits in
    (
      free_slot c g k,
      rw (group_free_object, found, at) (ground (arith, group_ok.mapped, group_ok.small)),
      placed,
      done,
    )
