-- ===== src/VmArea.antt =====
-- mm/vmarea.c: kernel areas, from a bitmap of pages. An address of 0 and an `int` of -1 are `none`
-- and `false`; whether `kmalloc` and `MapPages` succeed is a parameter.
pub mod Freeing
mod Tests
use xbook.Prelude.{
  ℕ, zero, suc, ◌+◌, ◌-◌, ◌*◌, ◌/◌, ◌%◌, ◌^◌, Bool, true, false, not, ◌&&◌, ◌||◌, Option, none,
  some, List, [], ◌∷◌, ◌++◌, ltb, leb, ◌==◌, if◌then◌else◌,
}
use xbook.Memory.{Memory}
use xbook.Bitmap.{Bitmap, set, scan}
use xbook.VmSpace.{page_align}

-- `struct VMArea`
pub record VmArea : Type 0 where
  pub addr : ℕ
  pub size : ℕ

-- The static variables of the file, and the memory that holds the bitmap
pub record Areas : Type 0 where
  pub memory : Memory
  pub bitmap : Bitmap
  pub base_address : ℕ
  pub using_list : List VmArea
  pub free_list : List VmArea

-- Sets `pages` bits from `idx` on to `value`.
unfoldable pub mark_pages : ℕ → Memory → Bitmap → ℕ → ℕ → Memory
mark_pages zero m b idx value = m
mark_pages (suc pages) m b idx value = mark_pages pages (set m b idx value) b (idx + 1) value

unfoldable pub alloc_vaddress : ℕ → Areas → Option ℕ × Areas
alloc_vaddress size s =
    let pages = page_align size / 4096 in
    if page_align size == 0 then (none, s) else elim (scan s.memory s.bitmap pages) [
      | none ↦ (none, s)
      | some idx ↦ (
        some ((s.base_address + idx * 4096) % 2 ^ 32),
        record s { memory = mark_pages pages s.memory s.bitmap idx 1 },
      )
    ]

-- The index is never -1: it is a quotient by the size of a page.
unfoldable pub free_vaddress : ℕ → ℕ → Areas → Areas
free_vaddress vaddr size s = record s {
  memory =
      mark_pages (size / 4096) s.memory s.bitmap ((vaddr + 2 ^ 32 - s.base_address) % 2 ^ 32 / 4096)
        0;
}

-- What `__vmalloc` does with an address; an area that cannot be mapped is freed and stays in the
-- list.
abbrev pub create_area : Bool → Bool → ℕ → Option ℕ × Areas → Option ℕ × Areas
create_area granted mapped size (none, s) = (none, s)
create_area granted mapped size (some start, s) =
    if start == 0
    then (none, s)
    else if granted
    then (let s' = record s {
      using_list = s.using_list ++ (record { addr = start; size = size } ∷ []);
    } in
        if mapped then (some start, s') else (none, free_vaddress start size s'))
    else (none, free_vaddress start size s)

-- The first area of the list whose size is at most `size`, and the list without it
unfoldable pub take_free : ℕ → List VmArea → Option VmArea × List VmArea
take_free size [] = (none, [])
take_free size (area ∷ areas) =
    if leb area.size size
    then (some area, areas)
    else let rest = take_free size areas in (rest.0, area ∷ rest.1)

abbrev pub reuse : Bool → Bool → ℕ → Option VmArea × List VmArea → Areas → Option ℕ × Areas
reuse granted mapped size (none, rest) s = create_area granted mapped size (alloc_vaddress size s)
reuse granted mapped size (some area, rest) s =
    (some area.addr, record s { using_list = s.using_list ++ (area ∷ []); free_list = rest })

-- A page is added to the size as a guard.
unfoldable pub vmalloc : Bool → Bool → ℕ → Areas → Option ℕ × Areas
vmalloc granted mapped size s =
    if page_align size == 0
    then (none, s)
    else let with_guard = (page_align size + 4096) % 2 ^ 32 in
      reuse granted mapped with_guard (take_free with_guard s.free_list) s

-- The place of an area in the free list, before the first that is not smaller
unfoldable pub insert_free : VmArea → List VmArea → List VmArea
insert_free target [] = target ∷ []
insert_free target (area ∷ areas) =
    if ltb area.size target.size then area ∷ insert_free target areas else target ∷ area ∷ areas

-- The first area in use at an address, and the list without it
unfoldable pub take_using : ℕ → List VmArea → Option VmArea × List VmArea
take_using addr [] = (none, [])
take_using addr (area ∷ areas) =
    if area.addr == addr
    then (some area, areas)
    else let rest = take_using addr areas in (rest.0, area ∷ rest.1)

abbrev pub is_nonempty : List VmArea → Bool
is_nonempty [] = false
is_nonempty (_ ∷ _) = true

-- `__vfree` and the result `insert`
abbrev pub release_area : Option VmArea × List VmArea → Areas → Bool × Areas
release_area (none, rest) s = (false, s)
release_area (some area, rest) s = (
  is_nonempty s.free_list,
  record s { using_list = rest; free_list = insert_free area s.free_list },
)

-- The success is false on every path: both `insert` and what follows return -1.
unfoldable pub vfree : ℕ → ℕ → Areas → Bool × Areas
vfree null_mem_addr addr s =
    if addr == 0 || (ltb addr s.base_address || leb null_mem_addr addr)
    then (false, s)
    else let (insert, s') = release_area (take_using addr s.using_list) s in
      if insert then (false, s') else (false, s')

-- `memmap` maps an area at its physical address.
unfoldable pub memmap : ℕ → Bool → ℕ → ℕ → Areas → Bool × Areas
memmap null_mem_addr granted paddr size s =
    if page_align size == 0
      || (paddr == 0 || ltb null_mem_addr ((paddr + page_align size) % 2 ^ 32))
    then (false, s)
    else if granted
    then (
      true,
      record s {
        using_list = s.using_list ++ (record { addr = paddr; size = page_align size } ∷ []);
      },
    )
    else (false, s)
