-- ===== src/VmSpace/Calls.antt =====
-- The system calls of mm/vmspace.c: `DoMmap`, `DoMunmap`, `DoBrk`, `SysBrk` and the release of a
-- memory manager. `SysMmap` and `SysMunmap` hand the current task's manager to the first two.
use Prim.Native.Nat.{bit_and}
use xbook.Prelude.{
  ℕ, ◌-◌, Bool, true, false, not, ◌&&◌, ◌||◌, Option, none, some, List, [], ◌∷◌, ◌++◌, ltb, leb,
  ◌==◌, if◌then◌else◌,
}
use xbook.VmSpace.{
  page_size, user_vm_size, map_fixed, vms_stack, vms_heap, vms_resource, max_vms_heap_size, add32,
  sub32, page_align, is_unaligned, VmSpace, MemoryManager, find_vm_space, find_vm_space_prev,
  find_vm_space_intersection, get_unmapped_vm_space, insert_vm_space, remove_vm_space,
}

-- The address that `DoMmap` settles on: with MAP_FIXED the given one, if it is aligned and free.
unfoldable pub fixed_is_taken : List VmSpace → ℕ → ℕ → Bool
fixed_is_taken spaces addr size = elim ((find_vm_space spaces addr).1) [
  | [] ↦ false
  | p ∷ _ ↦ ltb p.start (add32 addr size)
]

unfoldable pub choose_address : MemoryManager → ℕ → ℕ → ℕ → Option ℕ
choose_address mm addr size flags =
    if bit_and flags map_fixed == 0
    then elim (get_unmapped_vm_space mm.space_map size) [
      | none ↦ none
      | some at ↦ if at == 0xffff_ffff then none else some at
    ]
    else if is_unaligned addr || fixed_is_taken mm.space_map addr size
    then none
    else some addr

unfoldable pub do_mmap :
    (granted : Bool) → MemoryManager → (addr len prot flags : ℕ) → Option ℕ × MemoryManager
do_mmap granted mm addr len prot flags =
    let size = page_align len in
    let place = choose_address mm addr size flags in
    if size == 0
    then (none, mm)
    else if ltb user_vm_size size || (ltb user_vm_size addr || ltb (user_vm_size - size) addr)
    then (none, mm)
    else elim place [
      | none ↦ (none, mm)
      | some at ↦
          if granted
          then (
            some at,
            record mm {
              space_map =
                  insert_vm_space mm.space_map
                    (record { start = at; end = add32 at size; page_prot = prot; flags = flags });
            },
          )
          else (none, mm)
    ]

-- 0, -1 and -2
pub data Unmapping : Type 0 where
  done : Unmapping
  failed : Unmapping
  outside : Unmapping

-- The end of `DoMunmap`: `space` now ends at `addr` and `space_new` stands behind it; an empty
-- part is removed, the second one behind `prev` if the first has gone.
unfoldable pub split_space :
    (before : List VmSpace) (space space_new : VmSpace) (after : List VmSpace)
    → (prev_is_null : Bool) → List VmSpace
split_space before space space_new after prev_is_null =
    if space.start == space.end
    then (if space_new.start == space_new.end
        then remove_vm_space before after prev_is_null
        else remove_vm_space before (space_new ∷ after) prev_is_null)
    else (if space_new.start == space_new.end
        then remove_vm_space (before ++ space ∷ []) after false
        else before ++ space ∷ space_new ∷ after)

-- `fresh` is the content of the block that `kmalloc` returns for `spaceNew`; its `pageProt` and
-- `flags` are never set.
unfoldable pub do_munmap :
    (fresh : Option VmSpace) → MemoryManager → ℕ → ℕ → Unmapping × MemoryManager
do_munmap fresh mm addr len =
    let size = page_align len in
    let (place, prev_is_null) = find_vm_space_prev mm.space_map addr true in
    if is_unaligned addr || (ltb user_vm_size addr || ltb (user_vm_size - addr) len)
    then (failed, mm)
    else if size == 0
    then (failed, mm)
    else elim (place.1) [
      | [] ↦ (failed, mm)
      | space ∷ after ↦
          if ltb addr space.start || ltb space.end (add32 addr size)
          then (outside, mm)
          else elim fresh [
            | none ↦ (failed, mm)
            | some block ↦ (
              done,
              record mm {
                space_map =
                    split_space (place.0) (record space { end = addr })
                      (record block { start = add32 addr size; end = space.end }) after
                      prev_is_null;
              },
            )
          ]
    ]

-- `MemoryManagerRelease`: the ranges handed to `UnmapPagesFragment`, in order, and the new state.
unfoldable pub is_released : ℕ → VmSpace → Bool
is_released flags space =
    (not (bit_and flags vms_stack == 0) && not (bit_and space.flags vms_stack == 0))
    || ((not (bit_and flags vms_heap == 0) && not (bit_and space.flags vms_heap == 0))
        || (not (bit_and flags vms_resource == 0)
            && not (
                not (bit_and space.flags vms_stack == 0)
                && not (bit_and space.flags vms_heap == 0))))

unfoldable pub released : ℕ → List VmSpace → List (ℕ × ℕ)
released flags [] = []
released flags (space ∷ next) =
    let rest = released flags next in
    if is_released flags space then (space.start, sub32 space.end space.start) ∷ rest else rest

unfoldable pub memory_manager_release : MemoryManager → ℕ → List (ℕ × ℕ) × MemoryManager
memory_manager_release mm flags = (released flags mm.space_map, record mm { space_map = [] })

-- The merge of `DoBrk`: the space found for `addr - 1`, if it ends at `addr` and is heap.
unfoldable pub extend_heap : List VmSpace → ℕ → ℕ → Option (List VmSpace)
extend_heap spaces addr len =
    let (before, found) = find_vm_space spaces (sub32 addr 1) in
    elim found [
      | [] ↦ none
      | space ∷ after ↦
          if not (addr == 0) && (space.end == addr && space.flags == vms_heap)
          then some (before ++ record space { end = add32 addr len } ∷ after)
          else none
    ]

unfoldable pub do_brk :
    (fresh : Option VmSpace) (granted : Bool) → MemoryManager → ℕ → ℕ → Option ℕ × MemoryManager
do_brk fresh granted mm addr len =
    let size = page_align len in
    let (ret, mm') = do_munmap fresh mm addr size in
    if size == 0 then (some addr, mm) else elim ret [
      | failed ↦ (none, mm')
      | _ ↦ elim (extend_heap mm'.space_map addr size) [
        | some spaces ↦ (some addr, record mm' { space_map = spaces })
        | none ↦
            if granted
            then (
              some addr,
              record mm' {
                space_map = insert_vm_space mm'.space_map (record {
                  start = addr;
                  end = add32 addr size;
                  page_prot = 7;
                  flags = vms_heap;
                });
              },
            )
            else (none, mm')
      ]
    ]

-- `SysBrk` returns `mm->brk`; on every path that does not reach `SetBrk` it is left as it was.
unfoldable pub sys_brk :
    (fresh : Option VmSpace) (granted : Bool) → MemoryManager → ℕ → MemoryManager
sys_brk fresh granted mm brk =
    let new_brk = page_align brk in
    let old_brk = page_align mm.brk in
    let (ret, shrunk) = do_munmap fresh mm new_brk (sub32 old_brk new_brk) in
    let (at, grown) = do_brk fresh granted mm old_brk (sub32 new_brk old_brk) in
    if ltb brk mm.brk_start
    then mm
    else if new_brk == old_brk
    then record mm { brk = brk }
    else if leb brk mm.brk
    then elim ret [ done ↦ record shrunk { brk = brk } | _ ↦ shrunk ]
    else if ltb (add32 mm.brk_start max_vms_heap_size) brk
    then mm
    else elim (find_vm_space_intersection mm.space_map old_brk (add32 new_brk page_size)) [
      | some _ ↦ mm
      | none ↦ elim at [
        | none ↦ grown
        | some a ↦ if a == old_brk then record grown { brk = brk } else grown
      ]
    ]
