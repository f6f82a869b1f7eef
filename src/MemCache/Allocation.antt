-- ===== src/MemCache/Allocation.antt =====
-- `GroupAllocObjcet` gives out an object that was not in use.
use xbook.Prelude.{
  ℕ, ◌+◌, ◌-◌, ◌*◌, ◌%◌, ◌^◌, ◌≤◌, ◌<◌, ◌≡◌, refl, false, Option, none, some, List, [], ◌∷◌, ◌++◌,
  ◌==◌, Bool-cases, ◌⊎◌, inl, inr, arith,
}
use xbook.Bitmap.{scan_test}
use xbook.MemCache.{MemGroup, MemCache, take_slot, mem_group_alloc_object, alloc_from}
use xbook.MemCache.Counts.{one}
use xbook.MemCache.Invariant.{
  All, All-append, sum_of, sum_of-append, total, live, covers, at_address, live_in, covers_in,
  live_in-le-one, IsGroup, IsFull, IsPartial, IsFree, IsCache,
}
use xbook.MemCache.Slots.{
  with_slot, covers-with_slot, at_address-with_slot, live-with_slot, scan_group, take-IsGroup,
}

-- The group whose turn it is stands before the other partial groups, and has a free slot.
abbrev turn : MemCache → MemGroup → List MemGroup → MemCache
turn c g groups = record c { partial_groups = g ∷ groups }

record IsTurn (c : MemCache) (g : MemGroup) (groups : List MemGroup) : Type 0 where
  sized : 0 < c.object_size
  bounded : c.object_number < 2 ^ 30
  full : All (IsFull c.object_number) c.full_groups
  partial : All (IsPartial c.object_number) groups
  free : All (IsFree c.object_number) c.free_groups
  group : IsGroup c.object_number g
  room : g.using_count < c.object_number
  apart : (a : ℕ) → covers_in (turn c g groups) a ≤ 1
  single : (a : ℕ) → total (at_address a) (turn c g groups) ≤ 1

-- What an allocation of `object` changes: it is one more object in use, and was not one before.
abbrev pub Allocated : MemCache → ℕ → MemCache → Type 0
Allocated c object c' =
    IsCache c' × ((a : ℕ) → live_in c' a ≡ live_in c a + one (object == a)) × (live_in c object ≡ 0)

-- The group after the allocation of its object `k`
abbrev taken : MemGroup → ℕ → MemGroup
taken g k = with_slot g k 1 ((g.using_count + 1) % 2 ^ 32) ((g.free_count + 2 ^ 32 - 1) % 2 ^ 32)

-- Wherever the group goes, as long as it replaces the one before.
module _ (c : MemCache) (g : MemGroup) (groups : List MemGroup) (k : ℕ) (ok : IsTurn c g groups)
    (lt : k < c.object_number) (clear : scan_test g.bytes g.map k ≡ false) where
  allocated :
      (full partial : List MemGroup)
      → All (IsFull c.object_number) full
      → All (IsPartial c.object_number) partial
      → ((f : MemGroup → ℕ)
          → sum_of f full + sum_of f partial + f g
            ≡ sum_of f c.full_groups + (f g + sum_of f groups) + f (taken g k))
      → Allocated
          (turn c g groups)
          (g.objects + k * c.object_size)
          (record c { full_groups = full; partial_groups = partial })
  unfolding sum_of
  allocated full partial ok_full ok_partial moved =
      let n = c.object_number in
      let size = c.object_size in
      let object = g.objects + k * size in
      let using' = (g.using_count + 1) % 2 ^ 32 in
      let free' = (g.free_count + 2 ^ 32 - 1) % 2 ^ 32 in
      let c' : MemCache = record c { full_groups = full; partial_groups = partial } in
      let ok' : IsCache c' = record {
        sized = ok.sized;
        numbered = omega (arith, ok.room);
        bounded = ok.bounded;
        full = ok_full;
        partial = ok_partial;
        free = ok.free;
        apart = λ a. omega (
          arith,
          ok.apart a,
          moved (covers n size a),
          covers-with_slot n size a g k 1 using' free',
        );
        single = λ a.
            omega
              (arith, ok.single a, moved (at_address a), at_address-with_slot a g k 1 using' free');
      } in
      let more : (a : ℕ) → live_in c' a ≡ live_in (turn c g groups) a + one (object == a) =
        λ a. ground (arith, moved (live n size a), live-with_slot n size a g k 1 using' free' lt) in
      (ok', more, ground (arith, more object, live_in-le-one c' object ok'))

  take_slot_lem :
      Allocated (turn c g groups) (g.objects + k * c.object_size) (take_slot c g groups k).1
  unfolding sum_of
  take_slot_lem =
      let g' = taken g k in
      let fine = take-IsGroup c.object_number g k ok.group lt clear in
      elim (Bool-cases (g'.free_count == 0)) [
        | inl e ↦ rw e (
            allocated (c.full_groups ++ g' ∷ []) groups
              (All-append (IsFull c.object_number) c.full_groups (g' ∷ []) ok.full
                ((fine.0, ground (arith, ok.group.split)), tt))
              ok.partial (λ f. omega (arith, sum_of-append f c.full_groups (g' ∷ []))))
        | inr e ↦ rw e (
            allocated c.full_groups (g' ∷ groups) ok.full
              ((fine.0, ground arith, ground arith), ok.partial) (λ f. omega arith))
      ]

mem_group_alloc_object_lem :
    (c : MemCache) (g : MemGroup) (groups : List MemGroup)
    → IsTurn c g groups
    → (object : ℕ) × (c' : MemCache) × (mem_group_alloc_object c g groups ≡ (some object, c'))
      × Allocated (turn c g groups) object c'
unfolding mem_group_alloc_object
mem_group_alloc_object_lem c g groups ok =
    let (k, lt, found, clear) = scan_group c.object_number g ok.group ok.room in
    (
      g.objects + k * c.object_size,
      (take_slot c g groups k).1,
      rw (mem_group_alloc_object, found) refl,
      take_slot_lem c g groups k ok lt clear,
    )

abbrev holding : List MemGroup → List MemGroup → MemCache → MemCache
holding partial free c = record c { partial_groups = partial; free_groups = free }

-- A round that finds a group
abbrev pub Found : MemCache → Option (Option ℕ × MemCache) → Type 0
Found c result =
    (object : ℕ) × (c' : MemCache) × (result ≡ some (some object, c')) × Allocated c object c'

-- The first partial group has a free slot, and so has the first free group.
alloc_from_lists :
    (partial free : List MemGroup) (c : MemCache)
    → IsCache (holding partial free c)
    → (alloc_from partial free (holding partial free c) ≡ none)
      ⊎ Found (holding partial free c) (alloc_from partial free (holding partial free c))
unfolding sum_of
alloc_from_lists (g ∷ groups) free c ok =
    let ok' : IsTurn (holding (g ∷ groups) free c) g groups = record {
      sized = ok.sized;
      bounded = ok.bounded;
      full = ok.full;
      partial = ok.partial.1;
      free = ok.free;
      group = ok.partial.0.0;
      room = ok.partial.0.2;
      apart = ok.apart;
      single = ok.single;
    } in
    let (object, c', e, done) = mem_group_alloc_object_lem _ g groups ok' in
    inr (object, c', rw e refl, done)
alloc_from_lists [] (g ∷ free) c ok =
    let ok' : IsTurn (holding [] free c) g [] = record {
      sized = ok.sized;
      bounded = ok.bounded;
      full = ok.full;
      partial = tt;
      free = ok.free.1;
      group = ok.free.0.0;
      room = omega (arith, ok.numbered, ok.free.0.1);
      apart = λ a. omega (arith, ok.apart a);
      single = λ a. omega (arith, ok.single a);
    } in
    let (object, c', e, (valid, more, unused)) = mem_group_alloc_object_lem _ g [] ok' in
    inr (object, c', rw e refl, (valid, λ a. omega (arith, more a), omega (arith, unused)))
alloc_from_lists [] [] c ok = inl refl

pub alloc_from_lem :
    (c : MemCache)
    → IsCache c
    → (alloc_from c.partial_groups c.free_groups c ≡ none)
      ⊎ Found c (alloc_from c.partial_groups c.free_groups c)
alloc_from_lem c ok = alloc_from_lists c.partial_groups c.free_groups c ok
