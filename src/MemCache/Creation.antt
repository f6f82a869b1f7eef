-- ===== src/MemCache/Creation.antt =====
-- A new group, and `GroupAllocObjcet` with it.
use xbook.Prelude.{
  ℕ, zero, suc, ◌+◌, ◌*◌, ◌≤◌, ◌<◌, ◌≡◌, ◌≢◌, refl, true, false, ◌&&◌, Option, none, some, List, [],
  ◌∷◌, ltb, leb, ◌==◌, if◌then◌else◌, inl, inr, arith,
}
use native.Mathlib.Decide.{ℕ_discrete}
use xbook.Memory.{AreBytes}
use xbook.Bitmap.{scan_test}
use xbook.Bitmap.Change.{init_lem, init-AreBytes}
use xbook.MemCache.{
  MemGroup, MemCache, PageGrant, with_map, with_objects, add_free, mem_group_init, create_mem_group,
  alloc_from, group_alloc_object, find_group,
}
use xbook.MemCache.Counts.{one, count_below, count_below-none}
use xbook.MemCache.Invariant.{sum_of, total, live, covers, at_address, live_in, covers_in, IsCache}
use xbook.MemCache.Allocation.{Found, alloc_from_lem}

-- Where the objects of a new group lie
abbrev pub objects_of : MemCache → MemGroup → Option ℕ → Option ℕ
objects_of c page pages = if ltb c.object_size 1024 then some (page.address + 32 + 16) else pages

-- `AllocPages` gives pages that no group uses.
pub record IsGranted (c : MemCache) (grant : PageGrant) (page : MemGroup) (objects : ℕ)
    : Type 0 where
  pub granted : grant.page ≡ some page
  pub placed : objects_of c page grant.pages ≡ some objects
  pub bytes : AreBytes page.bytes
  pub new : total (at_address page.address) c ≡ 0
  pub fresh :
      (a : ℕ) → objects ≤ a → a < objects + c.object_number * c.object_size → covers_in c a ≡ 0

-- The slots of a group do not overlap.
covers-le-one :
    (n size a : ℕ) (g : MemGroup)
    → covers n size a g ≤ one (leb g.objects a && ltb a (g.objects + n * size))
unfolding covers count_below
covers-le-one zero size a g = ground arith
covers-le-one (suc n) size a g =
    let e : suc n * size ≡ n * size + size = grind arith in ground (arith, covers-le-one n size a g)

-- The new group, first of the free ones
abbrev new_group : MemCache → MemGroup → ℕ → MemGroup
new_group c page objects = with_objects c 0 objects (with_map c page)

new_group-clear :
    (c : MemCache) (page : MemGroup) (objects i : ℕ)
    → i < c.object_number
    → scan_test (new_group c page objects).bytes (new_group c page objects).map i ≡ false
new_group-clear c page objects i lt =
    (init_lem page.bytes (with_map c page).map i 0 (omega arith) (inl (omega arith))).0

new-single :
    (c : MemCache) (g : MemGroup) (a : ℕ)
    → total (at_address g.address) c ≡ 0
    → total (at_address a) c ≤ 1
    → total (at_address a) c + at_address a g ≤ 1
unfolding at_address
new-single c g a new single = elim (ℕ_discrete g.address a) [
  | yes e ↦ rw (← e) (ground (arith, new))
  | no ne ↦ ground arith
]

created-IsCache :
    (c : MemCache) (grant : PageGrant) (page : MemGroup) (objects : ℕ)
    → IsCache c
    → IsGranted c grant page objects
    → IsCache (add_free (new_group c page objects) c)
unfolding sum_of
created-IsCache c grant page objects ok given =
    let n = c.object_number in
    let g = new_group c page objects in
    record {
      sized = ok.sized;
      numbered = ok.numbered;
      bounded = ok.bounded;
      full = ok.full;
      partial = ok.partial;
      free = (
        (
          record {
            bytes = init-AreBytes page.bytes (with_map c page).map given.bytes;
            mapped = omega arith;
            small = omega (arith, ok.bounded);
            counted = count_below-none n _ (new_group-clear c page objects);
            split = omega arith;
          },
          refl,
        ),
        ok.free,
      );
      apart = λ a. ground (arith, covers-le-one n c.object_size a g, ok.apart a, given.fresh a);
      single = λ a. omega (arith, new-single c g a given.new (ok.single a));
    }

-- None of its objects is in use.
created-live :
    (c : MemCache) (page : MemGroup) (objects a : ℕ)
    → live_in (add_free (new_group c page objects) c) a ≡ live_in c a
unfolding sum_of live
created-live c page objects a =
    let g = new_group c page objects in
    omega (
      arith,
      count_below-none c.object_number
          (λ i. g.objects + i * c.object_size == a && scan_test g.bytes g.map i)
          (λ i lt. ground (arith, new_group-clear c page objects i lt)),
    )

create_mem_group_lem :
    (c : MemCache) (grant : PageGrant) (page : MemGroup) (objects : ℕ)
    → IsGranted c grant page objects
    → create_mem_group grant 0 c ≡ (true, add_free (new_group c page objects) c)
unfolding create_mem_group mem_group_init
create_mem_group_lem c grant page objects given = ground (arith, given.granted, given.placed)

first_round :
    (grants : List PageGrant) (c : MemCache) (result : Option ℕ × MemCache)
    → alloc_from c.partial_groups c.free_groups c ≡ some result
    → group_alloc_object grants c ≡ some result
unfolding group_alloc_object
first_round [] c result e = e
first_round (grant ∷ grants) c result e = rw (group_alloc_object, e) refl

alloc_from-ne-none :
    (partial free : List MemGroup) (g : MemGroup) (c : MemCache)
    → alloc_from partial (g ∷ free) c ≢ none
alloc_from-ne-none (p ∷ partial) free g c e = cc
alloc_from-ne-none [] free g c e = cc

-- `GroupAllocObjcet` returns an object that no one had, and no other object comes into use: from a
-- group that has one left, or from a new group, when `AllocPages` gives pages that no group uses.
pub group_alloc_object_lem :
    (c : MemCache) (grant : PageGrant) (grants : List PageGrant) (page : MemGroup) (objects : ℕ)
    → IsCache c
    → IsGranted c grant page objects
    → Found c (group_alloc_object (grant ∷ grants) c)
unfolding group_alloc_object
group_alloc_object_lem c grant grants page objects ok given = elim (alloc_from_lem c ok) [
  | inr (object, c', e, done) ↦ (object, c', rw (group_alloc_object, e) refl, done)
  | inl e ↦
      let c' = add_free (new_group c page objects) c in
      let ok' = created-IsCache c grant page objects ok given in
      elim (alloc_from_lem c' ok') [
        | inl gone ↦ absurd (alloc_from-ne-none c.partial_groups c.free_groups _ c' gone)
        | inr (object, c'', found, (valid, more, unused)) ↦ (
          object,
          c'',
          rw (group_alloc_object, e, create_mem_group_lem c grant page objects given)
              (first_round grants c' (some object, c'') found),
          (
            valid,
            λ a. omega (arith, more a, created-live c page objects a),
            omega (arith, unused, created-live c page objects object),
          ),
        )
      ]
]

-- Where `AllocPages` gives a page for the group and none for its objects, the call fails; the page,
-- which is free again, stays among the groups of the cache, for the next call to take.
pub group_alloc_object_dangles :
    (c : MemCache) (grant : PageGrant) (grants : List PageGrant) (page : MemGroup)
    → alloc_from c.partial_groups c.free_groups c ≡ none
    → 1024 ≤ c.object_size
    → grant.page ≡ some page
    → grant.pages ≡ none
    → (c' : MemCache) × (group : MemGroup) × (group_alloc_object (grant ∷ grants) c
        ≡ some (none, c'))
      × (find_group page.address c'.free_groups ≡ some group)
      × (group.objects ≡ 0)
unfolding group_alloc_object create_mem_group mem_group_init find_group
group_alloc_object_dangles c grant grants page gone large paged denied =
    let big : ltb c.object_size 1024 ≡ false = ground arith in
    let group : MemGroup = record (with_map c page) { objects = 0 } in
    (
      add_free group c,
      group,
      rw (group_alloc_object, gone, create_mem_group, paged, mem_group_init, big, denied) refl,
      ground arith,
      refl,
    )
