-- ===== src/VmSpace/Heap.antt =====
-- `DoBrk`, and `SysBrk` when the break moves up.
use xbook.Prelude.{
  ℕ, ◌+◌, ◌-◌, ◌*◌, ◌/◌, ◌^◌, ◌≤◌, ◌<◌, ◌≡◌, refl, ap, ◌∙◌, ◌⊎◌, inl, inr, Bool, true, false, ◌&&◌,
  ◌||◌, Option, none, some, List, [], ◌∷◌, ltb, leb, ◌==◌, Bool-cases, Option-cases, arith,
}
use xbook.VmSpace.{
  VmSpace, MemoryManager, user_vm_size, page_size, vms_heap, max_vms_heap_size, add32, sub32,
  page_align, find_vm_space, find_vm_space_intersection, insert_vm_space,
}
use xbook.VmSpace.Calls.{extend_heap, do_brk, sys_brk}
use xbook.VmSpace.Pages.{page_align_lem}
use xbook.VmSpace.Sorted.{
  IsSorted, IsFree, maps, starts_behind, found-IsFree, insert-IsSorted, maps-insert,
}
use xbook.VmSpace.Brk.{Grown, extend_heap-Grown, munmap_free}

abbrev heap_space : (addr size : ℕ) → VmSpace
heap_space addr size = record {
  start = addr;
  end = add32 addr size;
  page_prot = 7;
  flags = vms_heap;
}

insert-Grown :
    (mm : MemoryManager) (addr size : ℕ)
    → IsSorted 0 mm.space_map
    → 0 < size
    → addr + size ≤ user_vm_size
    → IsFree mm.space_map addr (addr + size)
    → Grown mm
        (record mm { space_map = insert_vm_space mm.space_map (heap_space addr size) })
        addr
        (addr + size)
insert-Grown mm addr size h pos top free = record {
  sorted =
      insert-IsSorted 0 mm.space_map (heap_space addr size) h (omega arith) (omega arith)
        (omega arith) (λ a p q. free a p (omega arith));
  mapping = λ a. maps-insert mm.space_map (heap_space addr size) a ∙ ground arith;
  others = (refl, refl);
}

-- At free addresses `DoBrk` fails and changes nothing, or maps the range in addition.
do_brk_lem :
    (fresh : Option VmSpace) (granted : Bool) (mm : MemoryManager) (addr len high : ℕ)
    → IsSorted 0 mm.space_map
    → 0 < page_align len
    → addr + page_align len ≤ high
    → starts_behind ((find_vm_space mm.space_map addr).1) high ≡ true
    → (((do_brk fresh granted mm addr len).0 ≡ none) × ((do_brk fresh granted mm addr len).1 ≡ mm))
      ⊎ (((do_brk fresh granted mm addr len).0 ≡ some addr)
          × Grown mm ((do_brk fresh granted mm addr len).1) addr (addr + page_align len))
unfolding do_brk
do_brk_lem fresh granted mm addr len high h pos fits behind =
    let size = page_align len in
    let (same, what) = munmap_free fresh mm addr size high h (omega arith) behind in
    elim what [
      | inl fail ↦ inl (ground arith, ground arith)
      | inr (out, top) ↦
          let free : IsFree mm.space_map addr (addr + size) =
            λ a p q. found-IsFree mm.space_map 0 addr high h behind a p (omega arith) in
          elim (Option-cases (extend_heap mm.space_map addr size)) [
            | inl apart ↦ elim (Bool-cases granted) [
              | inl yes' ↦
                  let e : (do_brk fresh granted mm addr len).1 ≡ record mm {
                    space_map = insert_vm_space mm.space_map (heap_space addr size);
                  } =
                    ground arith in
                  inr (ground arith, rw e (insert-Grown mm addr size h pos (omega arith) free))
              | inr no' ↦ inl (ground arith, ground arith)
            ]
            | inr (spaces, merged) ↦
                let e : (do_brk fresh granted mm addr len).1 ≡ record mm { space_map = spaces } =
                  ground arith in
                inr (
                  ground arith,
                  rw e (extend_heap-Grown mm spaces addr size h (omega arith) free merged),
                )
          ]
    ]

pub aligned_distance :
    (low high : ℕ)
    → low ≤ high
    → high < 2 ^ 32 - 4096
    → page_align (sub32 (page_align high) (page_align low)) ≡ page_align high - page_align low
aligned_distance low high p q = omega (
  arith,
  align high (omega arith),
  align low (omega arith),
  align (sub32 (page_align high) (page_align low))
      (omega (arith, align high (omega arith), align low (omega arith))),
)
  where
    align : (x : ℕ) → x ≤ 2 ^ 32 - 4096 → page_align x ≡ (x + 4095) / 4096 * 4096
    align x h = ground (arith, page_align_lem x (omega arith))

intersection_free :
    (spaces : List VmSpace) (low high : ℕ)
    → find_vm_space_intersection spaces low high ≡ none
    → starts_behind ((find_vm_space spaces low).1) high ≡ true
unfolding find_vm_space_intersection
intersection_free spaces low high e = go ((find_vm_space spaces low).1) refl
  where
    go :
        (found : List VmSpace)
        → (find_vm_space spaces low).1 ≡ found
        → starts_behind ((find_vm_space spaces low).1) high ≡ true
    go [] f = rw f
    go (space ∷ after) f = rw f (ground arith)

-- The break is set, and the pages from the old one to the new one are mapped in addition.
pub record Raised (mm mm' : MemoryManager) (brk : ℕ) : Type 0 where
  pub set : mm'.brk ≡ brk
  pub sorted : IsSorted 0 mm'.space_map
  pub mapping :
      (a : ℕ)
      → maps mm'.space_map a
        ≡ ((leb (page_align mm.brk) a && ltb a (page_align brk)) || maps mm.space_map a)

-- From here on the tests of `SysBrk` have passed, up to the call of `DoBrk`.
raise_break :
    (fresh : Option VmSpace) (granted : Bool) (mm : MemoryManager) (brk : ℕ)
    → IsSorted 0 mm.space_map
    → brk < 2 ^ 32 - 8192
    → mm.brk < brk
    → (page_align brk == page_align mm.brk) ≡ false
    → find_vm_space_intersection mm.space_map (page_align mm.brk) (add32 (page_align brk) page_size)
      ≡ none
    → let r =
        do_brk fresh granted mm (page_align mm.brk) (sub32 (page_align brk) (page_align mm.brk)) in
      ((r.0 ≡ none) × (r.1 ≡ mm))
      ⊎ ((r.0 ≡ some (page_align mm.brk)) × Raised mm (record (r.1) { brk = brk }) brk)
raise_break fresh granted mm brk h word up moved apart =
    let new_brk = page_align brk in
    let old_brk = page_align mm.brk in
    let e_new = page_align_lem brk (omega arith) in
    let e_old = page_align_lem mm.brk (omega arith) in
    let dist = aligned_distance mm.brk brk (omega arith) (omega arith) in
    let reach : old_brk + (new_brk - old_brk) ≡ new_brk = ground (arith, e_new, e_old) in
    let less : old_brk < new_brk = ground (arith, e_new, e_old) in
    let high : new_brk + 4096 < 2 ^ 32 = ground (arith, e_new) in
    elim (do_brk_lem fresh granted mm old_brk (sub32 new_brk old_brk) (add32 new_brk page_size) h
      (omega (arith, dist, less)) (omega (arith, dist, less, high))
      (intersection_free mm.space_map old_brk (add32 new_brk page_size) apart)) [
        | inl kept ↦ inl kept
        | inr (at, grown) ↦ inr (
          at,
          record {
            set = refl;
            sorted = grown.sorted;
            mapping = λ a.
                grown.mapping a
                ∙ ap (λ k. (leb old_brk a && ltb a k) || maps mm.space_map a)
                    (omega (arith, dist, reach));
          },
        )
      ]

-- Moving the break up either changes nothing, or sets it, maps exactly the pages from the old
-- break's to the new one's in addition, and keeps the list in order.
pub sys_brk_grow :
    (fresh : Option VmSpace) (granted : Bool) (mm : MemoryManager) (brk : ℕ)
    → IsSorted 0 mm.space_map
    → mm.brk_start ≤ user_vm_size
    → mm.brk < brk
    → (sys_brk fresh granted mm brk ≡ mm) ⊎ Raised mm (sys_brk fresh granted mm brk) brk
unfolding sys_brk
sys_brk_grow fresh granted mm brk h base up =
    let new_brk = page_align brk in
    let old_brk = page_align mm.brk in
    let grown = do_brk fresh granted mm old_brk (sub32 new_brk old_brk) in
    elim (Bool-cases (ltb brk mm.brk_start)) [
      | inl low ↦ inl (ground arith)
      | inr above ↦ elim (Bool-cases (new_brk == old_brk)) [
        | inl same ↦
            let e : sys_brk fresh granted mm brk ≡ record mm { brk = brk } = ground arith in
            inr (rw e (record { set = refl; sorted = h; mapping = λ a. ground arith }))
        | inr moved ↦ elim (Bool-cases (ltb (add32 mm.brk_start max_vms_heap_size) brk)) [
          | inl over ↦ inl (ground arith)
          | inr within ↦
              elim (Option-cases
                (find_vm_space_intersection mm.space_map old_brk (add32 new_brk page_size))) [
                  | inl apart ↦
                      elim (raise_break fresh granted mm brk h (ground arith) up moved apart) [
                        | inl kept ↦ inl (ground arith)
                        | inr (at, done') ↦
                            let e : sys_brk fresh granted mm brk ≡ record (grown.1) { brk = brk } =
                              ground arith in
                            inr (rw e done')
                      ]
                  | inr (s, hit) ↦ inl (ground arith)
                ]
        ]
      ]
    ]
