-- ===== src/VmSpace/Unmap.antt =====
-- `DoMunmap`: what is mapped afterwards, on every path that changes the list.
use xbook.Prelude.{
  ℕ, ◌+◌, ◌-◌, ◌≤◌, ◌<◌, append_assoc, ◌≡◌, ◌⊎◌, ◌≢◌, refl, sym, ap, ◌∙◌, inl, inr, Bool, true,
  false, not, ◌&&◌, Option, none, some, List, [], ◌∷◌, ◌++◌, ltb, leb, ◌==◌, Bool-cases, arith,
}
use xbook.VmSpace.{
  VmSpace, MemoryManager, user_vm_size, add32, page_align, find_vm_space, find_vm_space_prev,
  remove_vm_space,
}
use xbook.VmSpace.Calls.{split_space, done, failed, do_munmap}
use xbook.VmSpace.Pages.{page_align_lem}
use xbook.VmSpace.Sorted.{
  IsSorted, maps, maps_below, maps-append, maps-before, find_vm_space_split, IsSorted-append,
  IsSorted-replace, IsSorted-weaken,
}

-- Does the space found for the address start there?
abbrev pub starts_at : List VmSpace → ℕ → Bool
starts_at [] addr = false
starts_at (space ∷ _) addr = space.start == addr

abbrev first_part : VmSpace → ℕ → VmSpace
first_part space addr = record space { end = addr }

abbrev second_part : (block space : VmSpace) → ℕ → VmSpace
second_part block space high = record block { start = high; end = space.end }

-- The tests that a success has passed.
do_munmap_inversion :
    (block space : VmSpace) (mm mm' : MemoryManager) (addr len : ℕ) (after : List VmSpace)
    → (find_vm_space mm.space_map addr).1 ≡ space ∷ after
    → do_munmap (some block) mm addr len ≡ (done, mm')
    → (0 < page_align len)
      × (len ≤ user_vm_size - addr)
      × (space.start ≤ addr)
      × (add32 addr (page_align len) ≤ space.end)
      × (mm' ≡ record mm {
        space_map =
            split_space
              ((find_vm_space mm.space_map addr).0)
              (first_part space addr)
              (second_part block space (add32 addr (page_align len)))
              after
              true;
      })
unfolding do_munmap find_vm_space_prev
do_munmap_inversion block space mm mm' addr len after found ok = ground arith

-- What the end of `DoMunmap` leaves mapped.
maps-split :
    (before : List VmSpace) (space block : VmSpace) (after : List VmSpace) (addr high a : ℕ)
    → space.start ≤ addr
    → addr < high
    → high ≤ space.end
    → (addr ≤ a → maps before a ≡ false)
    → IsSorted space.end after
    → maps (split_space before (first_part space addr) (second_part block space high) after true) a
      ≡ (maps (before ++ space ∷ after) a
          && (not (leb addr a && ltb a high) && not (space.start == addr && ltb a addr)))
unfolding maps split_space remove_vm_space
maps-split before space block after addr high a p q r below h = ground (
  arith,
  maps-append before (space ∷ after) a,
  maps-append before (first_part space addr ∷ second_part block space high ∷ after) a,
  maps-append (before ++ first_part space addr ∷ []) after a,
  maps-append before (first_part space addr ∷ []) a,
  maps_below space.end a after h,
  below,
)

IsSorted-split :
    (before : List VmSpace) (space block : VmSpace) (after : List VmSpace) (addr high : ℕ)
    → space.start ≤ addr
    → addr < high
    → high ≤ space.end
    → IsSorted 0 (before ++ space ∷ after)
    → IsSorted 0
        (split_space before (first_part space addr) (second_part block space high) after true)
unfolding split_space remove_vm_space
IsSorted-split before space block after addr high p q r h =
    let (u, v, s) = IsSorted-append 0 before (space ∷ after) h in
    elim (Bool-cases (space.start == addr)) [
      | inl whole ↦ elim (Bool-cases (high == space.end)) [
        | inl full ↦ rw (whole, full) (IsSorted-weaken space.end 0 after (omega arith) s)
        | inr tail ↦ rw (whole, tail) (omega arith, ground arith, s)
      ]
      | inr part ↦ elim (Bool-cases (high == space.end)) [
        | inl full ↦
            rw (part, full, append_assoc)
              (IsSorted-replace 0 before (space ∷ after) (first_part space addr ∷ after) h
                (u, ground arith, IsSorted-weaken space.end addr after (omega arith) s))
        | inr tail ↦
            rw (part, tail)
              (IsSorted-replace 0 before (space ∷ after)
                (first_part space addr ∷ second_part block space high ∷ after) h
                (u, ground arith, (omega arith, ground arith, s)))
      ]
    ]

-- What a success leaves: the addresses of the range are unmapped, and where the range begins at
-- the start of a space all that was mapped below it; nothing else changes.
pub record Unmapped (mm mm' : MemoryManager) (addr size : ℕ) : Type 0 where
  pub sorted : IsSorted 0 mm'.space_map
  pub mapping :
      (a : ℕ)
      → maps mm'.space_map a ≡ (
          maps mm.space_map a
          && (not (leb addr a && ltb a (addr + size))
              && not (starts_at ((find_vm_space mm.space_map addr).1) addr && ltb a addr)))
  pub others : (mm'.brk ≡ mm.brk) × (mm'.brk_start ≡ mm.brk_start)

nothing_found :
    (fresh : Option VmSpace) (mm : MemoryManager) (addr len : ℕ)
    → (find_vm_space mm.space_map addr).1 ≡ []
    → (do_munmap fresh mm addr len).0 ≡ failed
unfolding do_munmap find_vm_space_prev
nothing_found fresh mm addr len e = ground arith

no_wrap :
    (addr len : ℕ)
    → 0 < page_align len
    → len ≤ user_vm_size - addr
    → add32 addr (page_align len) ≡ addr + page_align len
no_wrap addr len p q = ground (arith, page_align_lem len (omega arith))

space_found :
    (block space : VmSpace) (mm mm' : MemoryManager) (addr len : ℕ) (after : List VmSpace)
    → IsSorted 0 mm.space_map
    → (find_vm_space mm.space_map addr).1 ≡ space ∷ after
    → do_munmap (some block) mm addr len ≡ (done, mm')
    → Unmapped mm mm' addr (page_align len)
space_found block space mm mm' addr len after h found ok =
    let (sized, fits, low, high, e) =
      do_munmap_inversion block space mm mm' addr len after found ok in
    let size = page_align len in
    let before = (find_vm_space mm.space_map addr).0 in
    let wide : add32 addr size ≡ addr + size = no_wrap addr len sized fits in
    let whole : before ++ space ∷ after ≡ mm.space_map =
      ap (λ r. before ++ r) (sym found) ∙ find_vm_space_split mm.space_map addr in
    let sorted : IsSorted 0 (before ++ space ∷ after) = rw whole h in
    record {
      sorted = rw e (
          IsSorted-split before space block after addr (add32 addr size) low (omega (arith, wide))
            high sorted);
      mapping = λ a.
          rw (e, found)
            (maps-split before space block after addr (add32 addr size) a low (omega (arith, wide))
                high (maps-before mm.space_map addr a)
                (IsSorted-append 0 before (space ∷ after) sorted).2
              ∙ ap
                  (λ xs.
                    maps xs a
                    && (not (leb addr a && ltb a (add32 addr size))
                        && not (space.start == addr && ltb a addr)))
                  whole
              ∙ ap
                  (λ high'.
                    maps mm.space_map a
                    && (not (leb addr a && ltb a high') && not (space.start == addr && ltb a addr)))
                  wide);
      others = (ap (λ (m : MemoryManager). m.brk) e, ap (λ (m : MemoryManager). m.brk_start) e);
    }

-- A success of `DoMunmap` unmaps the range. It keeps the list in order, and keeps the mapping of
-- every other address with one exception: where the range begins at the start of a space, all that
-- was mapped below it is unmapped too.
pub do_munmap_lem :
    (block : VmSpace) (mm mm' : MemoryManager) (addr len : ℕ)
    → IsSorted 0 mm.space_map
    → do_munmap (some block) mm addr len ≡ (done, mm')
    → Unmapped mm mm' addr (page_align len)
do_munmap_lem block mm mm' addr len h ok = go ((find_vm_space mm.space_map addr).1) refl
  where
    go :
        (found : List VmSpace)
        → (find_vm_space mm.space_map addr).1 ≡ found
        → Unmapped mm mm' addr (page_align len)
    go [] e = absurd (ground (arith, nothing_found (some block) mm addr len e))
    go (space ∷ after) e = space_found block space mm mm' addr len after h e ok

-- Every result of `DoMunmap` but success changes nothing, and without memory for a new space there
-- is no success.
pub do_munmap_failure :
    (fresh : Option VmSpace) (mm : MemoryManager) (addr len : ℕ)
    → ((do_munmap fresh mm addr len).0 ≢ done) ⊎ (fresh ≡ none)
    → ((do_munmap fresh mm addr len).1 ≡ mm) × ((do_munmap fresh mm addr len).0 ≢ done)
unfolding do_munmap find_vm_space_prev
do_munmap_failure fresh mm addr len h = (ground arith, λ e. ground arith)
