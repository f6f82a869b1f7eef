-- ===== src/VmArea/Freeing.antt =====
-- mm/vmarea.c: what vmalloc hands out and vfree takes back.
use xbook.Prelude.{
  ℕ, ◌+◌, ◌*◌, ◌/◌, ◌<◌, ◌%◌, ◌^◌, ◌≤◌, ◌≡◌, ◌⊎◌, inl, inr, refl, Bool, true, false, ◌&&◌, ◌||◌,
  Option, none, some, List, [], ◌∷◌, ◌++◌, ltb, leb, ◌==◌, if◌then◌else◌, Bool-cases, arith,
}
use xbook.VmSpace.{page_align}
use xbook.VmArea.{VmArea, Areas, take_using, insert_free, release_area, vfree}
use xbook.Bitmap.{scan_test, scan}

-- The sizes go up from `n`.
abbrev pub sorted_from : ℕ → List VmArea → Bool
sorted_from n [] = true
sorted_from n (area ∷ areas) = leb n area.size && sorted_from area.size areas

-- How many areas of a list satisfy a test
abbrev pub count : (VmArea → Bool) → List VmArea → ℕ
count p [] = 0
count p (area ∷ areas) = (if p area then 1 else 0) + count p areas

-- Every area of a list is larger than `n`.
abbrev pub all_above : ℕ → List VmArea → Bool
all_above n [] = true
all_above n (area ∷ areas) = ltb n area.size && all_above n areas

insert_free-sorted_from :
    (target : VmArea) (n : ℕ) (areas : List VmArea)
    → n ≤ target.size
    → sorted_from n areas ≡ true
    → sorted_from n (insert_free target areas) ≡ true
unfolding insert_free
insert_free-sorted_from target n [] le s = ground arith
insert_free-sorted_from target n (area ∷ areas) le s =
    ground (arith, insert_free-sorted_from target area.size areas)

count-insert_free :
    (p : VmArea → Bool) (target : VmArea) (areas : List VmArea)
    → count p (insert_free target areas) ≡ (if p target then 1 else 0) + count p areas
unfolding insert_free
count-insert_free p target [] = refl
count-insert_free p target (area ∷ areas) = ground (arith, count-insert_free p target areas)

counted : (VmArea → Bool) → Option VmArea × List VmArea → ℕ
counted p (none, rest) = count p rest
counted p (some area, rest) = (if p area then 1 else 0) + count p rest

push-counted :
    (p : VmArea → Bool) (area : VmArea) (o : Option VmArea × List VmArea)
    → counted p (o.0, area ∷ o.1) ≡ (if p area then 1 else 0) + counted p o
unfolding counted
push-counted p area (none, rest) = refl
push-counted p area (some a, rest) = omega arith

counted-take_using :
    (p : VmArea → Bool) (addr : ℕ) (areas : List VmArea)
    → counted p (take_using addr areas) ≡ count p areas
unfolding take_using counted
counted-take_using p addr [] = refl
counted-take_using p addr (area ∷ areas) =
    ground (arith, counted-take_using p addr areas, push-counted p area (take_using addr areas))

-- Sorted free areas, and the areas of both lists that satisfy a test
abbrev pub KeepsAreas : (VmArea → Bool) → Areas → Areas → Type 0
KeepsAreas p s s' =
    (sorted_from 0 s'.free_list ≡ true)
    × (count p s'.using_list + count p s'.free_list ≡ count p s.using_list + count p s.free_list)

release_area_lem :
    (p : VmArea → Bool) (s : Areas) (o : Option VmArea × List VmArea)
    → sorted_from 0 s.free_list ≡ true
    → counted p o ≡ count p s.using_list
    → KeepsAreas p s (release_area o s).1
unfolding counted
release_area_lem p s (none, rest) sorted c = (sorted, refl)
release_area_lem p s (some area, rest) sorted c = (
  insert_free-sorted_from area 0 s.free_list (omega arith) sorted,
  omega (arith, count-insert_free p area s.free_list),
)

-- Whatever it is called with, `vfree` reports a failure. It keeps the free areas sorted by size, and
-- each area that was in use or free is still one of the two, and no other: for every test, as many
-- areas satisfy it as before.
pub vfree_lem :
    (p : VmArea → Bool) (null_mem_addr addr : ℕ) (s : Areas)
    → sorted_from 0 s.free_list ≡ true
    → ((vfree null_mem_addr addr s).0 ≡ false) × KeepsAreas p s (vfree null_mem_addr addr s).1
unfolding vfree
vfree_lem p null_mem_addr addr s sorted =
    let kept =
      release_area_lem p s (take_using addr s.using_list) sorted
        (counted-take_using p addr s.using_list) in
    elim (Bool-cases (addr == 0 || (ltb addr s.base_address || leb null_mem_addr addr))) [
      | inl e ↦ rw e (refl, (sorted, refl))
      | inr e ↦ elim (Bool-cases (release_area (take_using addr s.using_list) s).0) [
        | inl e' ↦ rw (e, e') (refl, kept)
        | inr e' ↦ rw (e, e') (refl, kept)
      ]
    ]

-- The first free area that is no larger than `n`, between the ones before it and those after it
abbrev pub IsFirst : ℕ → List VmArea → VmArea → List VmArea → List VmArea → Type 0
IsFirst n areas a before after =
    (areas ≡ before ++ a ∷ after) × (a.size ≤ n) × (all_above n before ≡ true)

-- The area is the first free one that is not too large, and goes from the free areas to those in use.
abbrev pub IsReused : ℕ → Areas → Option ℕ × Areas → Type 0
IsReused n s r =
    (a : VmArea) × (before : List VmArea) × (after : List VmArea) × IsFirst n s.free_list a before
      after
    × (r.0 ≡ some a.addr)
    × (r.1.using_list ≡ s.using_list ++ (a ∷ []))
    × (r.1.free_list ≡ before ++ after)

-- The area lies on pages that the bitmap had clear.
abbrev pub IsNew : ℕ → Areas → Option ℕ × Areas → Type 0
IsNew n s r =
    (idx : ℕ) × (r.0 ≡ some ((s.base_address + idx * 4096) % 2 ^ 32))
    × (r.1.using_list
        ≡ s.using_list ++ (record { addr = (s.base_address + idx * 4096) % 2 ^ 32; size = n } ∷ []))
    × ((i : ℕ) → idx ≤ i → i < idx + page_align n / 4096 → scan_test s.memory s.bitmap i ≡ false)

-- Why there is no new area: `kmalloc` or `MapPages` fails, the size is 0, the bitmap has no run of
-- pages, or the address of the run is 0.
abbrev pub IsRefused : Bool → ℕ → Areas → Type 0
IsRefused works n s =
    (works ≡ false)
    ⊎ ((page_align n ≡ 0)
        ⊎ ((scan s.memory s.bitmap (page_align n / 4096) ≡ none)
            ⊎ ((idx : ℕ) × (scan s.memory s.bitmap (page_align n / 4096) ≡ some idx)
                × ((s.base_address + idx * 4096) % 2 ^ 32 ≡ 0))))
