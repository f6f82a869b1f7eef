-- ===== src/VmSpace/Release.antt =====
-- `MemoryManagerRelease`: what it unmaps.
use Prim.Native.Nat.{bit_and}
use xbook.Prelude.{
  ℕ, ◌+◌, ◌≡◌, refl, Bool, true, false, ◌&&◌, ◌||◌, List, [], ◌∷◌, ltb, leb, ◌==◌, arith,
}
use xbook.VmSpace.{VmSpace, MemoryManager, vms_stack, vms_heap, vms_resource}
use xbook.VmSpace.Sorted.{IsSorted, IsSorted-bounded, maps}
use xbook.VmSpace.Calls.{is_released, released, memory_manager_release}

-- Is an address in one of the ranges, given by start and length?
abbrev pub covers : List (ℕ × ℕ) → ℕ → Bool
covers [] a = false
covers ((start, len) ∷ ranges) a = (leb start a && ltb a (start + len)) || covers ranges a

-- Is no space marked as stack and heap at once?
abbrev are_unmixed : List VmSpace → Bool
are_unmixed [] = true
are_unmixed (space ∷ next) =
    ((bit_and space.flags vms_stack == 0) || (bit_and space.flags vms_heap == 0))
    && are_unmixed next

covers-released :
    (flags a low : ℕ) (spaces : List VmSpace)
    → (bit_and flags vms_resource == 0) ≡ false
    → are_unmixed spaces ≡ true
    → IsSorted low spaces
    → covers (released flags spaces) a ≡ maps spaces a
unfolding released is_released maps
covers-released flags a low [] resource unmixed h = refl
covers-released flags a low (space ∷ next) resource unmixed (p, q, h) =
    let ih = covers-released flags a space.end next resource (ground arith) h in
    let bound = IsSorted-bounded space.end next h in ground (arith, ih, bound)

-- With VMS_RESOURCE, where no space is marked as stack and heap at once, `MemoryManagerRelease`
-- unmaps exactly what is mapped, the stack and the heap included, and leaves an empty list.
pub memory_manager_release_lem :
    (mm : MemoryManager) (flags a : ℕ)
    → (bit_and flags vms_resource == 0) ≡ false
    → are_unmixed mm.space_map ≡ true
    → IsSorted 0 mm.space_map
    → (covers ((memory_manager_release mm flags).0) a ≡ maps mm.space_map a)
      × ((memory_manager_release mm flags).1.space_map ≡ [])
unfolding memory_manager_release
memory_manager_release_lem mm flags a resource unmixed h =
    (covers-released flags a 0 mm.space_map resource unmixed h, refl)
