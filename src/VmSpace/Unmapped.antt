-- ===== src/VmSpace/Unmapped.antt =====
-- `GetUnmappedVMSpace`: the gap that it finds, and what happens where there is none.
use xbook.Prelude.{
  ℕ, ◌+◌, ◌-◌, ◌≤◌, ◌<◌, ◌≡◌, refl, ◌∙◌, ◌⊎◌, inl, inr, true, some, List, [], ◌∷◌, ltb, leb,
  Bool-cases, arith,
}
use xbook.VmSpace.{
  VmSpace, user_vm_size, vms_unmapped_base, add32, sub32, find_vm_space, search_gap,
  get_unmapped_vm_space,
}
use xbook.VmSpace.Sorted.{
  last_end, IsSorted, IsFree, maps, maps_below, maps-find, found-IsSorted, IsSorted-bounded,
  ends_behind, found-ends_behind, IsSorted-ends_behind,
}

-- The search from an address on: the range is free, and it lies in the user's half unless it was
-- put behind the last space.
search_gap_lem :
    (spaces : List VmSpace) (low len addr at : ℕ)
    → IsSorted low spaces
    → ends_behind spaces addr ≡ true
    → addr ≤ user_vm_size
    → len ≤ user_vm_size
    → search_gap spaces len addr ≡ some at
    → (addr ≤ at)
      × IsFree spaces at (at + len)
      × ((at + len ≤ user_vm_size) ⊎ (at ≡ last_end addr spaces))
unfolding search_gap maps
search_gap_lem [] low len addr at h behind p q found =
    (ground arith, λ a le lt. refl, inr (ground arith))
search_gap_lem (space ∷ next) low len addr at (u, v, h) behind p q found =
    let bound : space.end ≤ user_vm_size = IsSorted-bounded space.end next h in
    elim (Bool-cases (ltb (sub32 user_vm_size len) addr)) [
      | inl over ↦ absurd (ground arith)
      | inr fits ↦ elim (Bool-cases (leb (add32 addr len) space.start)) [
        | inl here ↦ (
          ground arith,
          λ a le lt. ground (arith, maps_below space.end a next h),
          inl (ground arith),
        )
        | inr later ↦
            let ih =
              search_gap_lem next space.end len space.end at h
                (IsSorted-ends_behind space.end next h) bound q (ground arith) in
            (ground (arith, ih.0), λ a le lt. ground (arith, ih.0, ih.1 a le lt), ih.2)
      ]
    ]

abbrev from_base : List VmSpace → List VmSpace
from_base spaces = (find_vm_space spaces vms_unmapped_base).1

-- The range that `GetUnmappedVMSpace` returns starts in the upper part of the user's half and is
-- free; it ends in the user's half unless it was put behind the last space.
pub get_unmapped_lem :
    (spaces : List VmSpace) (len at : ℕ)
    → IsSorted 0 spaces
    → len ≤ user_vm_size
    → get_unmapped_vm_space spaces len ≡ some at
    → (vms_unmapped_base ≤ at)
      × IsFree spaces at (at + len)
      × ((at + len ≤ user_vm_size) ⊎ (at ≡ last_end vms_unmapped_base (from_base spaces)))
unfolding get_unmapped_vm_space
get_unmapped_lem spaces len at h q found =
    let (above, free, place) =
      search_gap_lem (from_base spaces) 0 len vms_unmapped_base at
        (found-IsSorted 0 spaces vms_unmapped_base h) (found-ends_behind spaces vms_unmapped_base)
        (omega arith) q found in
    (
      above,
      λ a le lt. maps-find 0 spaces vms_unmapped_base a h (omega (arith, above)) ∙ free a le lt,
      place,
    )

-- Where only one space stands above the base, reaches up to the end of the user's half and leaves
-- too small a gap below, the address returned is the end of the user's half.
pub get_unmapped_past_user :
    (spaces : List VmSpace) (stack : VmSpace) (len : ℕ)
    → from_base spaces ≡ stack ∷ []
    → stack.end ≡ user_vm_size
    → len ≤ user_vm_size - vms_unmapped_base
    → stack.start < vms_unmapped_base + len
    → get_unmapped_vm_space spaces len ≡ some user_vm_size
unfolding get_unmapped_vm_space search_gap
get_unmapped_past_user spaces stack len only top p q = rw only (ground arith)
