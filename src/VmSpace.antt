-- ===== src/VmSpace.antt =====
-- mm/vmspace.c and include/book/vmspace.h: the list of mapped ranges of a process, `mmap`,
-- `munmap` and `brk`. Addresses and lengths are 32-bit words, and their sums wrap.
--
-- The linked list from `spaceMap` on is a list; a pointer to a node of it is the pair of the nodes
-- before it and the nodes from it on, with no node from it on for NULL. What `kmalloc` does is an
-- argument: `granted` where the code sets every field that is read later, and the content of the
-- fresh block, or `none`, where it does not. `printk` is left out. A result of -1 is `none`.
pub mod Pages
pub mod Sorted
pub mod Unmapped
pub mod Map
pub mod Merge
pub mod Unmap
pub mod Brk
pub mod Calls
pub mod Heap
pub mod Shrink
pub mod Release
mod Tests
use Prim.Native.Nat.{bit_and, bit_or}
use xbook.Prelude.{
  ℕ, zero, suc, ◌+◌, ◌-◌, ◌*◌, ◌/◌, ◌%◌, ◌^◌, Bool, true, false, not, ◌&&◌, ◌||◌, Option, none,
  some, List, [], ◌∷◌, ◌++◌, ltb, leb, ◌==◌, if◌then◌else◌,
}

abbrev pub page_size : ℕ
page_size = 4096

abbrev pub user_vm_size : ℕ
user_vm_size = 0x8000_0000

abbrev pub vms_unmapped_base : ℕ
vms_unmapped_base = user_vm_size / 2

abbrev pub map_fixed : ℕ
map_fixed = 16

abbrev pub vms_stack : ℕ
vms_stack = 1

abbrev pub vms_heap : ℕ
vms_heap = 2

abbrev pub vms_resource : ℕ
vms_resource = 0x80

abbrev pub max_vms_heap_size : ℕ
max_vms_heap_size = 0x2000_0000

-- `unsigned int` sums and differences
abbrev pub add32 : ℕ → ℕ → ℕ
add32 a b = (a + b) % 2 ^ 32

abbrev pub sub32 : ℕ → ℕ → ℕ
sub32 a b = (a + 2 ^ 32 - b) % 2 ^ 32

-- `PAGE_ALIGN`, and the test `addr & ~PAGE_MASK`
unfoldable pub page_align : ℕ → ℕ
page_align value =
    bit_and (if bit_and value 4095 == 0 then value else add32 value page_size) 0xffff_f000

pub is_unaligned : ℕ → Bool
is_unaligned addr = not (bit_and addr 4095 == 0)

pub record VmSpace : Type 0 where
  pub start : ℕ
  pub end : ℕ
  pub page_prot : ℕ
  pub flags : ℕ

-- The fields that this file reads or writes.
pub record MemoryManager : Type 0 where
  pub space_map : List VmSpace
  pub brk_start : ℕ
  pub brk : ℕ

-- `InitMemoryManager` sets the list alone.
pub init_memory_manager : MemoryManager → MemoryManager
init_memory_manager mm = record mm { space_map = [] }

-- `FindVMSpace`: the first space with `addr < space->end`, as the nodes before it and from it on.
pub find_vm_space : List VmSpace → ℕ → List VmSpace × List VmSpace
find_vm_space [] addr = ([], [])
find_vm_space (space ∷ next) addr =
    let (before, found) = find_vm_space next addr in
    if ltb addr space.end then ([], space ∷ next) else (space ∷ before, found)

-- `FindVMSpacePrev` assigns to its own copy of the parameter `prev`: whether the caller's pointer
-- is NULL, the second result, is as it was.
pub find_vm_space_prev :
    List VmSpace → ℕ → (prev_is_null : Bool) → (List VmSpace × List VmSpace) × Bool
find_vm_space_prev spaces addr prev_is_null = (find_vm_space spaces addr, prev_is_null)

pub find_vm_space_intersection : List VmSpace → ℕ → ℕ → Option VmSpace
find_vm_space_intersection spaces start_addr end_addr = elim ((find_vm_space spaces start_addr).1) [
  | [] ↦ none
  | space ∷ _ ↦ if leb end_addr space.start then none else some space
]

-- The loop of `GetUnmappedVMSpace` over the nodes from `space` on.
pub search_gap : List VmSpace → ℕ → ℕ → Option ℕ
search_gap [] len addr = some addr
search_gap (space ∷ next) len addr =
    let rest = search_gap next len space.end in
    if ltb (sub32 user_vm_size len) addr
    then none
    else if leb (add32 addr len) space.start
    then some addr
    else rest

pub get_unmapped_vm_space : List VmSpace → ℕ → Option ℕ
get_unmapped_vm_space spaces len =
    search_gap ((find_vm_space spaces vms_unmapped_base).1) len vms_unmapped_base

-- `InsertVMSpace`: before the first space that starts at or behind the end of the new one.
pub insert_vm_space : List VmSpace → VmSpace → List VmSpace
insert_vm_space [] space = space ∷ []
insert_vm_space (p ∷ next) space =
    if leb space.end p.start then space ∷ p ∷ next else p ∷ insert_vm_space next space

-- `MergeVMSpace` on the nodes `prev`, `space` and `next`: what stands in their place, and whether
-- anything was merged.
pub merge_next : VmSpace → Option VmSpace → Bool → List VmSpace × Bool
merge_next space none merged = (space ∷ [], merged)
merge_next space (some next) merged =
    if space.end == next.start && (space.page_prot == next.page_prot && space.flags == next.flags)
    then (record space { end = next.end } ∷ [], true)
    else (space ∷ next ∷ [], merged)

pub merge_vm_space : Option VmSpace → VmSpace → Option VmSpace → List VmSpace × Bool
merge_vm_space none space next = merge_next space next false
merge_vm_space (some prev) space next =
    if prev.end == space.start && (prev.page_prot == space.page_prot && prev.flags == space.flags)
    then merge_next (record prev { end = space.end }) next true
    else (let (rest, merged) = merge_next space next false in (prev ∷ rest, merged))

-- `RemoveVMSpace` of the node between `before` and `after`: with `prev == NULL` the head of the
-- list is set to what follows, whatever stands before.
pub remove_vm_space : List VmSpace → List VmSpace → (prev_is_null : Bool) → List VmSpace
remove_vm_space before after prev_is_null = if prev_is_null then after else before ++ after
