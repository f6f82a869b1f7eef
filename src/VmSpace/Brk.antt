-- ===== src/VmSpace/Brk.antt =====
-- `DoBrk` and `SysBrk`: the heap grows into free addresses only, and the list stays in order.
use xbook.Prelude.{
  ℕ, ◌+◌, ◌≤◌, ◌<◌, ◌≡◌, refl, sym, ap, ◌∙◌, ◌⊎◌, inl, true, ◌&&◌, ◌||◌, Option, some, List, [],
  ◌∷◌, ◌++◌, ltb, leb, arith,
}
use xbook.VmSpace.{VmSpace, MemoryManager, user_vm_size, sub32, find_vm_space, find_vm_space_prev}
use xbook.VmSpace.Calls.{failed, outside, do_munmap, extend_heap}
use xbook.VmSpace.Sorted.{
  IsSorted, IsFree, maps, maps-append, found-IsSorted, find_vm_space_split, IsSorted-append,
  IsSorted-replace, IsSorted-bounded, starts_behind,
}

-- A list in order stays in order behind free addresses.
raise :
    (low high : ℕ) (spaces : List VmSpace)
    → IsSorted low spaces
    → low ≤ high
    → high ≤ user_vm_size
    → IsFree spaces low high
    → IsSorted high spaces
unfolding maps
raise low high [] h le top free = top
raise low high (space ∷ next) (p, q, h) le top free = (ground (arith, free space.start), q, h)

-- The list that the merge of `DoBrk` makes.
abbrev extended : List VmSpace → VmSpace → ℕ → List VmSpace → List VmSpace
extended before space high after = before ++ record space { end = high } ∷ after

extended-IsSorted :
    (before : List VmSpace) (space : VmSpace) (after : List VmSpace) (high : ℕ)
    → IsSorted 0 (before ++ space ∷ after)
    → space.end ≤ high
    → high ≤ user_vm_size
    → IsFree (before ++ space ∷ after) space.end high
    → IsSorted 0 (extended before space high after)
unfolding maps
extended-IsSorted before space after high h le top free =
    let (u, v, s) = IsSorted-append 0 before (space ∷ after) h in
    IsSorted-replace 0 before (space ∷ after) (record space { end = high } ∷ after) h (
      u,
      omega arith,
      raise space.end high after s le top
          (λ a p q. ground (arith, free a p q, maps-append before (space ∷ after) a)),
    )

maps-extended :
    (before : List VmSpace) (space : VmSpace) (after : List VmSpace) (high a : ℕ)
    → space.start < space.end
    → space.end ≤ high
    → maps (extended before space high after) a
      ≡ ((leb space.end a && ltb a high) || maps (before ++ space ∷ after) a)
unfolding maps
maps-extended before space after high a p q = ground (
  arith,
  maps-append before (space ∷ after) a,
  maps-append before (record space { end = high } ∷ after) a,
)

-- The range is mapped in addition, the list stays in order, and the rest of the state stays.
pub record Grown (mm mm' : MemoryManager) (low high : ℕ) : Type 0 where
  pub sorted : IsSorted 0 mm'.space_map
  pub mapping : (a : ℕ) → maps mm'.space_map a ≡ ((leb low a && ltb a high) || maps mm.space_map a)
  pub others : (mm'.brk ≡ mm.brk) × (mm'.brk_start ≡ mm.brk_start)

pub extend_heap-Grown :
    (mm : MemoryManager) (spaces : List VmSpace) (addr len : ℕ)
    → IsSorted 0 mm.space_map
    → addr + len ≤ user_vm_size
    → IsFree mm.space_map addr (addr + len)
    → extend_heap mm.space_map addr len ≡ some spaces
    → Grown mm (record mm { space_map = spaces }) addr (addr + len)
unfolding extend_heap
extend_heap-Grown mm spaces addr len h top free ok =
    go ((find_vm_space mm.space_map (sub32 addr 1)).1) refl
  where
    before : List VmSpace
    before = (find_vm_space mm.space_map (sub32 addr 1)).0

    go :
        (found : List VmSpace)
        → (find_vm_space mm.space_map (sub32 addr 1)).1 ≡ found
        → Grown mm (record mm { space_map = spaces }) addr (addr + len)
    go [] e = absurd (ground arith)
    go (space ∷ after) e =
        let shape : (space.end ≡ addr) × (spaces ≡ extended before space (addr + len) after) =
          ground arith in
        let whole : before ++ space ∷ after ≡ mm.space_map =
          ap (λ r. before ++ r) (sym e) ∙ find_vm_space_split mm.space_map (sub32 addr 1) in
        let sorted : IsSorted 0 (before ++ space ∷ after) = rw whole h in
        let filled = (IsSorted-append 0 before (space ∷ after) sorted).1 in
        record {
          sorted = rw (shape.1) (
              extended-IsSorted before space after (addr + len) sorted (omega (arith, shape.0)) top
                (rw (whole, shape.0) free));
          mapping = λ a. rw (shape.1) (
              maps-extended before space after (addr + len) a filled (omega (arith, shape.0))
              ∙ ap (λ k. (leb k a && ltb a (addr + len)) || maps (before ++ space ∷ after) a)
                  shape.0
              ∙ ap (λ xs. (leb addr a && ltb a (addr + len)) || maps xs a) whole);
          others = (refl, refl);
        }

-- At a free address `DoMunmap` changes nothing, and where it reports -2 the range ends in the
-- user's half.
pub munmap_free :
    (fresh : Option VmSpace) (mm : MemoryManager) (addr size high : ℕ)
    → IsSorted 0 mm.space_map
    → addr < high
    → starts_behind ((find_vm_space mm.space_map addr).1) high ≡ true
    → ((do_munmap fresh mm addr size).1 ≡ mm)
      × (((do_munmap fresh mm addr size).0 ≡ failed)
          ⊎ (((do_munmap fresh mm addr size).0 ≡ outside) × (high ≤ user_vm_size)))
unfolding do_munmap find_vm_space_prev
munmap_free fresh mm addr size high h lt behind =
    go ((find_vm_space mm.space_map addr).1) refl (found-IsSorted 0 mm.space_map addr h)
  where
    go :
        (found : List VmSpace)
        → (find_vm_space mm.space_map addr).1 ≡ found
        → IsSorted 0 found
        → ((do_munmap fresh mm addr size).1 ≡ mm)
          × (((do_munmap fresh mm addr size).0 ≡ failed)
              ⊎ (((do_munmap fresh mm addr size).0 ≡ outside) × (high ≤ user_vm_size)))
    go [] e s = (ground arith, inl (ground arith))
    go (space ∷ after) e (p, q, s) =
        let start : high ≤ space.start = ground arith in
        let top : space.end ≤ user_vm_size = IsSorted-bounded space.end after s in
        (ground arith, ground (arith, top))
