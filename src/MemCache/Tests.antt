-- ===== src/MemCache/Tests.antt =====
-- mm/memcache.c at small caches.
use xbook.Prelude.{
  ℕ, ◌+◌, ◌*◌, ◌≤◌, ◌<◌, ◌≡◌, refl, none, some, [], ◌∷◌, ◌==◌, if◌then◌else◌, get_elem?, arith,
}
use xbook.Prelude.{set as set_elem}
use xbook.Bitmap.{scan_test}
use xbook.MemCache.{
  MemGroup, MemCache, PageGrant, cache_sizes, size_index, kmalloc, group_alloc_object,
  group_free_object, find_group,
}
use xbook.MemCache.Counts.{count_below}
use xbook.MemCache.Invariant.{sum_of, covers, at_address, IsCache}
use xbook.MemCache.Allocation.{Allocated, Found}
use xbook.MemCache.Creation.{IsGranted, group_alloc_object_lem}
use xbook.MemCache.Release.{Freed, Placed, given_back, group_free_object_lem}
use xbook.MemCache.Layout.{kmalloc_lem}

-- A page full of ones
abbrev page : MemGroup
page = record {
  address = 0x1000;
  map = record { bytes_len = 0; bits = 0 };
  bytes = λ _. 255;
  objects = 7;
  using_count = 7;
  free_count = 7;
  flags = 7;
}

abbrev empty : ℕ → ℕ → MemCache
empty size number = record {
  full_groups = [];
  partial_groups = [];
  free_groups = [];
  object_size = size;
  flags = 0;
  object_number = number;
}

empty_64-IsCache : IsCache (empty 64 63)
unfolding sum_of
empty_64-IsCache = record {
  sized = omega arith;
  numbered = omega arith;
  bounded = omega arith;
  full = tt;
  partial = tt;
  free = tt;
  apart = λ a. omega arith;
  single = λ a. omega arith;
}

abbrev grant : PageGrant
grant = record { page = some page; pages = none }

grant-IsGranted : IsGranted (empty 64 63) grant page 0x1030
unfolding sum_of
grant-IsGranted = record {
  granted = refl;
  placed = refl;
  bytes = λ a. omega arith;
  new = refl;
  fresh = λ a low high. refl;
}

group_alloc_object_lem_example : Found (empty 64 63) (group_alloc_object (grant ∷ []) (empty 64 63))
group_alloc_object_lem_example =
    group_alloc_object_lem (empty 64 63) grant [] page 0x1030 empty_64-IsCache grant-IsGranted

kmalloc_lem_example :
    (object : ℕ) × (cache' : MemCache) × (kmalloc 40 (grant ∷ []) (empty 32 126 ∷ empty 64 63 ∷ [])
      ≡ some (
        some object,
        set_elem (empty 32 126 ∷ empty 64 63 ∷ []) (size_index 40 cache_sizes) cache',
      ))
    × Allocated (empty 64 63) object cache'
    × (40 ≤ 64)
    × ((j s : ℕ) → j < size_index 40 cache_sizes → get_elem? cache_sizes j ≡ some s → s < 40)
unfolding size_index
kmalloc_lem_example =
    kmalloc_lem 40 (empty 32 126 ∷ empty 64 63 ∷ []) grant [] page 0x1030 (empty 64 63)
      (omega arith) refl refl empty_64-IsCache grant-IsGranted

-- Two objects of 2048 bytes, the second of which is in use
abbrev half : MemGroup
half = record {
  address = 0x1000;
  map = record { bytes_len = 1; bits = 0x1020 };
  bytes = λ a. if a == 0x1020 then 2 else 0;
  objects = 0x8000;
  using_count = 1;
  free_count = 1;
  flags = 0;
}

abbrev one_group : MemCache
one_group = record {
  full_groups = [];
  partial_groups = half ∷ [];
  free_groups = [];
  object_size = 2048;
  flags = 0;
  object_number = 2;
}

one_group-IsCache : IsCache one_group
unfolding sum_of count_below covers at_address scan_test
one_group-IsCache = record {
  sized = omega arith;
  numbered = omega arith;
  bounded = omega arith;
  full = tt;
  partial = (
    (
      record {
        bytes = λ a. ground arith;
        mapped = omega arith;
        small = omega arith;
        counted = refl;
        split = refl;
      },
      omega arith,
      omega arith,
    ),
    tt,
  );
  free = tt;
  apart = λ a. ground arith;
  single = λ a. ground arith;
}

group_free_object_lem_example :
    (c' : MemCache) × (group_free_object half.address (0x8000 + 1 * 2048) one_group ≡ some c')
    × Placed c' (given_back half 1)
    × Freed one_group (0x8000 + 1 * 2048) c'
unfolding find_group scan_test
group_free_object_lem_example =
    group_free_object_lem one_group half 1 one_group-IsCache refl (omega arith) refl (omega arith)
