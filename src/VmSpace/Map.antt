-- ===== src/VmSpace/Map.antt =====
-- `DoMmap`: what is mapped afterwards, and the invariant.
use Prim.Native.Nat.{bit_and}
use native.Mathlib.Decide.{dec_lt}
use xbook.Prelude.{
  ℕ, ◌+◌, ◌^◌, ◌≤◌, ◌<◌, ◌≡◌, refl, ap, ◌∙◌, ◌⊎◌, inl, inr, Bool, true, false, ◌&&◌, ◌||◌, none,
  some, List, [], ◌∷◌, ltb, leb, ◌==◌, Bool-cases, Option-cases, arith,
}
use xbook.VmSpace.{
  VmSpace, MemoryManager, user_vm_size, map_fixed, add32, page_align, find_vm_space,
  get_unmapped_vm_space, insert_vm_space,
}
use xbook.VmSpace.Calls.{fixed_is_taken, choose_address, do_mmap}
use xbook.VmSpace.Sorted.{
  IsSorted, IsFree, maps, starts_behind, found-IsFree, insert-IsSorted, maps-insert,
}
use xbook.VmSpace.Unmapped.{get_unmapped_lem}

fixed-IsFree :
    (spaces : List VmSpace) (addr size : ℕ)
    → IsSorted 0 spaces
    → addr + size ≤ user_vm_size
    → fixed_is_taken spaces addr size ≡ false
    → IsFree spaces addr (addr + size)
unfolding fixed_is_taken
fixed-IsFree spaces addr size h fits free =
    found-IsFree spaces 0 addr (addr + size) h (go ((find_vm_space spaces addr).1) free)
  where
    go :
        (found : List VmSpace)
        → (elim found [ [] ↦ false | p ∷ _ ↦ ltb p.start (add32 addr size) ]) ≡ false
        → starts_behind found (addr + size) ≡ true
    go [] e = refl
    go (p ∷ _) e = ground arith

choose_address_lem :
    (mm : MemoryManager) (addr size flags at : ℕ)
    → IsSorted 0 mm.space_map
    → addr + size ≤ user_vm_size
    → choose_address mm addr size flags ≡ some at
    → IsFree mm.space_map at (at + size) × ((bit_and flags map_fixed == 0) ≡ false → at ≡ addr)
unfolding choose_address
choose_address_lem mm addr size flags at h fits chosen =
    elim (Bool-cases (bit_and flags map_fixed == 0)) [
      | inl loose ↦ elim (Option-cases (get_unmapped_vm_space mm.space_map size)) [
        | inl no_gap ↦ absurd (ground arith)
        | inr (a, gap) ↦
            let r = get_unmapped_lem mm.space_map size a h (omega arith) gap in
            let e : at ≡ a = ground arith in rw e (r.1, λ f. absurd (ground arith))
      ]
      | inr fixed ↦
          let e : at ≡ addr = ground arith in
          rw e (fixed-IsFree mm.space_map addr size h fits (ground arith), λ f. refl)
    ]

-- What a successful `DoMmap` does: the range was free, it is the one asked for under MAP_FIXED,
-- the order is kept if it ends in the user's half, and exactly it is mapped in addition unless its
-- end is not a word.
pub record Mapped (mm mm' : MemoryManager) (addr size flags at : ℕ) : Type 0 where
  pub free : IsFree mm.space_map at (at + size)
  pub fixed : ((bit_and flags map_fixed == 0) ≡ true) ⊎ ((at ≡ addr) × (at + size ≤ user_vm_size))
  pub sorted : (user_vm_size < at + size) ⊎ IsSorted 0 mm'.space_map
  pub mapping :
      (a : ℕ)
      → (2 ^ 32 ≤ at + size)
        ⊎ (maps mm'.space_map a ≡ ((leb at a && ltb a (at + size)) || maps mm.space_map a))
  pub others : (mm'.brk ≡ mm.brk) × (mm'.brk_start ≡ mm.brk_start)

abbrev new_space : (at size prot flags : ℕ) → VmSpace
new_space at size prot flags = record {
  start = at;
  end = add32 at size;
  page_prot = prot;
  flags = flags;
}

-- The tests that a success has passed.
do_mmap_inversion :
    (granted : Bool) (mm mm' : MemoryManager) (addr len prot flags at : ℕ)
    → do_mmap granted mm addr len prot flags ≡ (some at, mm')
    → (0 < page_align len)
      × (page_align len ≤ user_vm_size)
      × (addr + page_align len ≤ user_vm_size)
      × (choose_address mm addr (page_align len) flags ≡ some at)
      × (mm' ≡ record mm {
        space_map = insert_vm_space mm.space_map (new_space at (page_align len) prot flags);
      })
unfolding do_mmap
do_mmap_inversion granted mm mm' addr len prot flags at ok = ground arith

-- A success of `DoMmap` maps a range of at least one page that was free, keeps the rest of the
-- mapping and of the state unless the end of the range is no 32-bit word, and keeps the list in
-- order if the range ends in the user's half; under MAP_FIXED the range is the one that was asked for, and does end there.
pub do_mmap_lem :
    (granted : Bool) (mm mm' : MemoryManager) (addr len prot flags at : ℕ)
    → IsSorted 0 mm.space_map
    → do_mmap granted mm addr len prot flags ≡ (some at, mm')
    → (0 < page_align len) × Mapped mm mm' addr (page_align len) flags at
do_mmap_lem granted mm mm' addr len prot flags at h ok =
    let (sized, small, fits, place, e) =
      do_mmap_inversion granted mm mm' addr len prot flags at ok in
    let size = page_align len in
    let r = choose_address_lem mm addr size flags at h fits place in
    let space = new_space at size prot flags in
    (
      sized,
      record {
        free = r.0;
        fixed = elim (Bool-cases (bit_and flags map_fixed == 0)) [
          | inl free' ↦ inl free'
          | inr f ↦ inr (r.1 f, omega (arith, r.1 f))
        ];
        sorted = elim (dec_lt user_vm_size (at + size)) [
          | yes over ↦ inl over
          | no inside ↦ inr (
              rw e (
                insert-IsSorted 0 mm.space_map space h (omega arith) (omega arith) (omega arith)
                  (λ a le lt. r.0 a le (omega arith))))
        ];
        mapping = λ a. elim (dec_lt (at + size) (2 ^ 32)) [
          | yes inside ↦ inr (rw e (maps-insert mm.space_map space a ∙ ground arith))
          | no wraps ↦ inl (omega arith)
        ];
        others = (ap (λ (m : MemoryManager). m.brk) e, ap (λ (m : MemoryManager). m.brk_start) e);
      },
    )

-- `DoMmap` fails and changes nothing where the length is 0, where the range asked for does not fit
-- into the user's half, where the allocator fails, and where the fixed range meets a space.
pub do_mmap_failure :
    (granted : Bool) (mm : MemoryManager) (addr len prot flags : ℕ)
    → (page_align len ≡ 0)
      ⊎ (user_vm_size < addr + page_align len)
      ⊎ (granted ≡ false)
      ⊎ (((bit_and flags map_fixed == 0) ≡ false)
          × (fixed_is_taken mm.space_map addr (page_align len) ≡ true))
    → do_mmap granted mm addr len prot flags ≡ (none, mm)
unfolding do_mmap choose_address
do_mmap_failure granted mm addr len prot flags h = ground arith
