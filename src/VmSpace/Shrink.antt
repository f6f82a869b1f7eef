-- ===== src/VmSpace/Shrink.antt =====
-- `SysBrk` when the break moves down.
use xbook.Prelude.{
  ℕ, ◌+◌, ◌≤◌, ◌≡◌, ◌≢◌, refl, ap, ◌∙◌, ◌⊎◌, inl, inr, Bool, false, not, ◌&&◌, Option, none, some,
  ltb, leb, ◌==◌, if◌then◌else◌, Bool-cases, arith,
}
use xbook.VmSpace.{VmSpace, MemoryManager, user_vm_size, sub32, page_align, find_vm_space}
use xbook.VmSpace.Calls.{Unmapping, done, failed, outside, do_munmap, sys_brk}
use xbook.VmSpace.Pages.{page_align_lem}
use xbook.VmSpace.Sorted.{IsSorted, maps}
use xbook.VmSpace.Unmap.{starts_at, do_munmap_lem, do_munmap_failure}
use xbook.VmSpace.Heap.{aligned_distance}

-- The break is set, and the pages from the new one up to the old one are unmapped as `DoMunmap`
-- does it.
pub record Lowered (mm mm' : MemoryManager) (brk : ℕ) : Type 0 where
  pub set : mm'.brk ≡ brk
  pub sorted : IsSorted 0 mm'.space_map
  pub mapping :
      (a : ℕ)
      → maps mm'.space_map a ≡ (
          if page_align brk == page_align mm.brk
          then maps mm.space_map a
          else (maps mm.space_map a
              && (not (leb (page_align brk) a && ltb a (page_align mm.brk))
                  && not (
                      starts_at ((find_vm_space mm.space_map (page_align brk)).1) (page_align brk)
                      && ltb a (page_align brk)))))

lower_break :
    (block : VmSpace) (mm : MemoryManager) (brk : ℕ)
    → IsSorted 0 mm.space_map
    → mm.brk ≤ user_vm_size
    → brk ≤ mm.brk
    → (page_align brk == page_align mm.brk) ≡ false
    → let r =
        do_munmap (some block) mm (page_align brk) (sub32 (page_align mm.brk) (page_align brk)) in
      r.0 ≡ done → Lowered mm (record (r.1) { brk = brk }) brk
lower_break block mm brk h top le moved e =
    let new_brk = page_align brk in
    let old_brk = page_align mm.brk in
    let r = do_munmap (some block) mm new_brk (sub32 old_brk new_brk) in
    let u = do_munmap_lem block mm (r.1) new_brk (sub32 old_brk new_brk) h (λ i. (e i, r.1)) in
    let reach : new_brk + page_align (sub32 old_brk new_brk) ≡ old_brk = ground (
      arith,
      aligned_distance brk mm.brk le (omega arith),
      page_align_lem brk (omega arith),
      page_align_lem mm.brk (omega arith),
    ) in
    record {
      set = refl;
      sorted = u.sorted;
      mapping = λ a. rw moved (
          u.mapping a
          ∙ ap
              (λ k.
                maps mm.space_map a
                && (not (leb new_brk a && ltb a k)
                    && not (
                        starts_at ((find_vm_space mm.space_map new_brk).1) new_brk
                        && ltb a new_brk)))
              reach);
    }

Unmapping-cases : (u : Unmapping) → (u ≡ done) ⊎ (u ≢ done)
Unmapping-cases done = inl refl
Unmapping-cases failed = inr (λ e. cc)
Unmapping-cases outside = inr (λ e. cc)

-- The tests of `SysBrk` that come before the call of `DoMunmap`.
shrink_tests :
    (fresh : Option VmSpace) (granted : Bool) (mm : MemoryManager) (brk : ℕ)
    → IsSorted 0 mm.space_map
    → ((page_align brk == page_align mm.brk) ≡ false
        → ltb brk mm.brk_start ≡ false
        → (sys_brk fresh granted mm brk ≡ mm) ⊎ Lowered mm (sys_brk fresh granted mm brk) brk)
    → (sys_brk fresh granted mm brk ≡ mm) ⊎ Lowered mm (sys_brk fresh granted mm brk) brk
unfolding sys_brk
shrink_tests fresh granted mm brk h next = elim (Bool-cases (ltb brk mm.brk_start)) [
  | inl low ↦ inl (ground arith)
  | inr above ↦ elim (Bool-cases (page_align brk == page_align mm.brk)) [
    | inl same ↦
        let e : sys_brk fresh granted mm brk ≡ record mm { brk = brk } = ground arith in
        inr (rw e (record { set = refl; sorted = h; mapping = λ a. rw same }))
    | inr moved ↦ next moved above
  ]
]

-- Moving the break down either changes nothing, or sets it and unmaps the pages from the new one
-- up to the old one as `DoMunmap` does: with what lies below them, if a space begins there.
pub sys_brk_shrink :
    (fresh : Option VmSpace) (granted : Bool) (mm : MemoryManager) (brk : ℕ)
    → IsSorted 0 mm.space_map
    → mm.brk ≤ user_vm_size
    → brk ≤ mm.brk
    → (sys_brk fresh granted mm brk ≡ mm) ⊎ Lowered mm (sys_brk fresh granted mm brk) brk
unfolding sys_brk
sys_brk_shrink none granted mm brk h top le =
    let (same, ne) =
      do_munmap_failure none mm (page_align brk) (sub32 (page_align mm.brk) (page_align brk))
        (inr refl) in
    shrink_tests none granted mm brk h (λ moved above. inl (ground (arith, same, ne)))
sys_brk_shrink (some block) granted mm brk h top le =
    let len = sub32 (page_align mm.brk) (page_align brk) in
    let cut = do_munmap (some block) mm (page_align brk) len in
    shrink_tests (some block) granted mm brk h (λ moved above. elim (Unmapping-cases (cut.0)) [
      | inl ok ↦
          let e : sys_brk (some block) granted mm brk ≡ record (cut.1) { brk = brk } =
            ground arith in
          inr (rw e (lower_break block mm brk h top le moved ok))
      | inr ne ↦
          inl (ground (arith, (do_munmap_failure (some block) mm (page_align brk) len (inl ne)).0))
    ])
