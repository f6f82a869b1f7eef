-- ===== src/MemCache/Layout.antt =====
-- What `MemCacheInit` and `kmalloc` choose.
use native.Mathlib.Nat.{div-mul-le_self, mul-le-mul_left, le-div_iff_mul-le}
use xbook.Prelude.{
  ℕ, zero, suc, ◌+◌, ◌-◌, ◌*◌, ◌/◌, ◌^◌, ◌≤◌, ◌<◌, ◌≡◌, inl, inr, refl, true, false, some, List, [],
  ◌∷◌, ◌++◌, ltb, leb, ◌==◌, if◌then◌else◌, Bool-cases, get_elem?, arith, sym, ◌∙◌,
}
use xbook.Prelude.{set as set_elem}
use xbook.MemCache.{MemGroup, MemCache, PageGrant, mem_cache_init, cache_sizes, size_index, kmalloc}
use xbook.MemCache.Invariant.{sum_of, live_in, IsCache}
use xbook.MemCache.Allocation.{Allocated}
use xbook.MemCache.Creation.{IsGranted, group_alloc_object_lem}

quotient :
    (k size low : ℕ)
    → 0 < low
    → low ≤ size
    → size ≤ k
    → (0 < k / size) × (k / size * size ≤ k) × (k / size * low ≤ k)
quotient k size low pos above below =
    let whole = div-mul-le_self k size in
    let part = mul-le-mul_left (k / size) above in
    (
      (le-div_iff_mul-le {k = size} {x = 1} {y = k} (omega arith)).1 (omega arith),
      whole,
      omega (arith, whole, part),
    )

-- Where a group of `number` objects has its bitmap and its objects
abbrev pub FitsPages : ℕ → ℕ → Type 0
FitsPages size number =
    if ltb size 1024
    then ((number + 7) / 8 ≤ 16) × (32 + 16 + number * size ≤ 4096)
    else (32 + (number + 7) / 8 ≤ 4096) × (number * size ≤ 4 * 2 ^ 20)

empty-IsCache :
    (size number flags : ℕ)
    → 0 < size
    → 0 < number
    → number < 2 ^ 30
    → let c : MemCache = record {
      full_groups = [];
      partial_groups = [];
      free_groups = [];
      object_size = size;
      flags = flags;
      object_number = number;
    } in
      IsCache c × ((a : ℕ) → live_in c a ≡ 0)
unfolding sum_of
empty-IsCache size number flags pos nonempty small = (
  record {
    sized = pos;
    numbered = nonempty;
    bounded = small;
    full = tt;
    partial = tt;
    free = tt;
    apart = λ a. omega arith;
    single = λ a. omega arith;
  },
  λ a. refl,
)

-- A cache that `MemCacheInit` sets up, for a size from 32 bytes to 4 MB, is empty and sound, and its
-- groups have room: the bitmap and the objects of small ones fit the page of the group, the bitmap
-- in the 16 bytes before them; that of larger ones fits the page, and the objects fit 4 MB.
mem_cache_init_lem :
    (cache : MemCache) (size flags : ℕ)
    → 32 ≤ size
    → size ≤ 4 * 1024 * 1024
    → (c : MemCache) × (mem_cache_init cache size flags ≡ some c)
      × IsCache c
      × ((a : ℕ) → live_in c a ≡ 0)
      × FitsPages size c.object_number
unfolding mem_cache_init
mem_cache_init_lem cache size flags low high =
    let nonzero : (size == 0) ≡ false = ground arith in
    elim (Bool-cases (ltb size 1024)) [
      | inl e ↦
          let q = quotient (4096 - 32 - 16) size 32 (omega arith) low (ground arith) in
          let (ok, none_live) =
            empty-IsCache size ((4096 - 32 - 16) / size) flags (omega arith) q.0
              (omega (arith, q.2)) in
          (
            _,
            rw (mem_cache_init, nonzero, e) refl,
            ok,
            none_live,
            rw e (omega (arith, q.2), omega (arith, q.1)),
          )
      | inr e ↦ elim (Bool-cases (leb size (128 * 1024))) [
        | inl f ↦
            let q = quotient (2 ^ 20) size 1024 (omega arith) (ground arith) (ground arith) in
            let (ok, none_live) =
              empty-IsCache size (2 ^ 20 / size) flags (omega arith) q.0 (omega (arith, q.2)) in
            (
              _,
              rw (mem_cache_init, nonzero, e, f) refl,
              ok,
              none_live,
              rw e (omega (arith, q.2), omega (arith, q.1)),
            )
        | inr f ↦
            let g : leb size (4 * 1024 * 1024) ≡ true = ground arith in
            let q =
              quotient (4 * 2 ^ 20) size (128 * 1024) (omega arith) (ground arith) (ground arith) in
            let (ok, none_live) =
              empty-IsCache size (4 * 2 ^ 20 / size) flags (omega arith) q.0 (omega (arith, q.2)) in
            (
              _,
              rw (mem_cache_init, nonzero, e, f, g) refl,
              ok,
              none_live,
              rw e (omega (arith, q.2), omega (arith, q.1)),
            )
      ]
    ]

later :
    (size t : ℕ) (sizes : List ℕ) (last i : ℕ)
    → t < size
    → ((j s' : ℕ) → j < i → get_elem? (sizes ++ last ∷ []) j ≡ some s' → s' < size)
    → (j s' : ℕ) → j < suc i
    → get_elem? (t ∷ sizes ++ last ∷ []) j ≡ some s'
    → s' < size
later size t sizes last i small least zero s' lt e = let same : t ≡ s' = cc in omega arith
later size t sizes last i small least (suc j) s' lt e = least j s' (omega arith) e

-- The first size that is large enough
size_index_lem :
    (size last : ℕ) (sizes : List ℕ)
    → size ≤ last
    → (s : ℕ) × (get_elem? (sizes ++ last ∷ []) (size_index size (sizes ++ last ∷ [])) ≡ some s)
      × (size ≤ s)
      × ((j s' : ℕ)
          → j < size_index size (sizes ++ last ∷ [])
          → get_elem? (sizes ++ last ∷ []) j ≡ some s'
          → s' < size)
unfolding size_index
size_index_lem size last [] h =
    let enough : leb size last ≡ true = ground arith in
    (last, rw enough refl, h, rw enough (λ j s' lt e. absurd (omega arith)))
size_index_lem size last (t ∷ sizes) h = elim (Bool-cases (leb size t)) [
  | inl e ↦ (t, rw e refl, ground arith, rw e (λ j s' lt g. absurd (omega arith)))
  | inr e ↦
      let (s, found, enough, least) = size_index_lem size last sizes h in
      (
        s,
        rw e found,
        enough,
        rw e (later size t sizes last (size_index size (sizes ++ last ∷ [])) (ground arith) least),
      )
]

abbrev small_sizes : List ℕ
small_sizes =
    32
    ∷ 64
    ∷ 128
    ∷ 256
    ∷ 512
    ∷ 1024
    ∷ 2048
    ∷ 4096
    ∷ 8 * 1024
    ∷ 16 * 1024
    ∷ 32 * 1024
    ∷ 64 * 1024
    ∷ []

-- For up to 128 KB `kmalloc` takes an object from the cache of the least size that is large enough,
-- one that no one had, and leaves the other caches as they are, when `AllocPages` gives pages that
-- no group of that cache uses.
pub kmalloc_lem :
    (size : ℕ) (caches : List MemCache) (grant : PageGrant) (grants : List PageGrant)
    (page : MemGroup) (objects : ℕ) (cache : MemCache)
    → size ≤ 128 * 1024
    → get_elem? caches (size_index size cache_sizes) ≡ some cache
    → get_elem? cache_sizes (size_index size cache_sizes) ≡ some cache.object_size
    → IsCache cache
    → IsGranted cache grant page objects
    → (object : ℕ) × (cache' : MemCache) × (kmalloc size (grant ∷ grants) caches
        ≡ some (some object, set_elem caches (size_index size cache_sizes) cache'))
      × Allocated cache object cache'
      × (size ≤ cache.object_size)
      × ((j s : ℕ) → j < size_index size cache_sizes → get_elem? cache_sizes j ≡ some s → s < size)
unfolding kmalloc
kmalloc_lem size caches grant grants page objects cache fits here sized ok given =
    let i = size_index size cache_sizes in
    let (object, cache', e, done) =
      group_alloc_object_lem cache grant grants page objects ok given in
    let (s, found, enough, least) = size_index_lem size (128 * 1024) small_sizes fits in
    let small : ltb (128 * 1024) size ≡ false = ground arith in
    let same : some s ≡ some cache.object_size = sym found ∙ sized in
    let eq : s ≡ cache.object_size = cc in
    (object, cache', rw (kmalloc, small, here, e) refl, done, omega arith, least)
