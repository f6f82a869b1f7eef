-- ===== src/VmSpace/Tests.antt =====
-- mm/vmspace.c at a small process: code, heap and stack.
use xbook.Prelude.{◌<◌, ◌≡◌, refl, ◌⊎◌, true, none, some, [], ◌∷◌, arith}
use xbook.VmSpace.{
  VmSpace, MemoryManager, page_align, is_unaligned, find_vm_space, find_vm_space_prev, search_gap,
  get_unmapped_vm_space, insert_vm_space, remove_vm_space, find_vm_space_intersection,
}
use xbook.VmSpace.Calls.{
  choose_address, do_mmap, do_munmap, split_space, do_brk, extend_heap, sys_brk,
}
use xbook.VmSpace.Sorted.{IsSorted}
use xbook.VmSpace.Map.{Mapped, do_mmap_lem}
use xbook.VmSpace.Unmap.{Unmapped, do_munmap_lem}
use xbook.VmSpace.Heap.{Raised, sys_brk_grow}
use xbook.VmSpace.Shrink.{Lowered, sys_brk_shrink}

abbrev code_space : VmSpace
code_space = record { start = 0x1000; end = 0x3000; page_prot = 5; flags = 0 }

abbrev heap_space : VmSpace
heap_space = record { start = 0x4000; end = 0x8000; page_prot = 7; flags = 2 }

abbrev stack_space : VmSpace
stack_space = record { start = 0x7fff_f000; end = 0x8000_0000; page_prot = 3; flags = 1 }

abbrev process : MemoryManager
process = record {
  space_map = code_space ∷ heap_space ∷ stack_space ∷ [];
  brk_start = 0x4000;
  brk = 0x7ff0;
}

process-IsSorted : IsSorted 0 process.space_map
process-IsSorted = omega arith

abbrev mapped : MemoryManager
mapped = record process {
  space_map =
      code_space
      ∷ heap_space
      ∷ record { start = 0x4000_0000; end = 0x4000_2000; page_prot = 3; flags = 0 }
      ∷ stack_space
      ∷ [];
}

do_mmap_lem_example :
    (0 < page_align 0x1001) × Mapped process mapped 0 (page_align 0x1001) 0 0x4000_0000
unfolding do_mmap choose_address get_unmapped_vm_space search_gap find_vm_space insert_vm_space
    page_align
do_mmap_lem_example = do_mmap_lem true process mapped 0 0x1001 3 0 0x4000_0000 process-IsSorted refl

-- The code's pages are lost with the first page of the heap.
abbrev after_munmap : MemoryManager
after_munmap = record process {
  space_map = record { start = 0x5000; end = 0x8000; page_prot = 9; flags = 9 } ∷ stack_space ∷ [];
}

abbrev block : VmSpace
block = record { start = 9; end = 9; page_prot = 9; flags = 9 }

do_munmap_lem_example : Unmapped process after_munmap 0x4000 (page_align 0x1000)
unfolding do_munmap find_vm_space_prev find_vm_space split_space remove_vm_space page_align
    is_unaligned
do_munmap_lem_example = do_munmap_lem block process after_munmap 0x4000 0x1000 process-IsSorted refl

sys_brk_grow_example :
    (sys_brk none true process 0x9000 ≡ process)
    ⊎ Raised process (sys_brk none true process 0x9000) 0x9000
sys_brk_grow_example =
    sys_brk_grow none true process 0x9000 process-IsSorted (omega arith) (omega arith)

sys_brk_grow_run : (sys_brk none true process 0x9000).brk ≡ 0x9000
unfolding sys_brk do_brk do_munmap find_vm_space_prev find_vm_space split_space extend_heap
    page_align find_vm_space_intersection is_unaligned
sys_brk_grow_run = refl

sys_brk_shrink_example :
    (sys_brk (some block) true process 0x5000 ≡ process)
    ⊎ Lowered process (sys_brk (some block) true process 0x5000) 0x5000
sys_brk_shrink_example =
    sys_brk_shrink (some block) true process 0x5000 process-IsSorted (omega arith) (omega arith)
