-- ===== src/MemCache.antt =====
-- mm/memcache.c: caches of objects of one size. A group holds `object_number` objects and a bitmap
-- of those in use. A pointer is its address, and a list of groups its groups in order; what
-- `AllocPages` gives is a parameter of each round. A null pointer and an `int` of -1 are `none` and
-- `false`.
pub mod Counts
pub mod Invariant
pub mod Slots
pub mod Allocation
pub mod Creation
pub mod Lists
pub mod Release
pub mod Layout
mod Tests
use xbook.Prelude.{
  ℕ, zero, suc, ◌+◌, ◌-◌, ◌*◌, ◌/◌, ◌%◌, ◌^◌, Bool, true, false, not, ◌&&◌, ◌||◌, Option, none,
  some, List, [], ◌∷◌, ◌++◌, map, get_elem?, ltb, leb, ◌==◌, if◌then◌else◌,
}
use mathlib.Core.Option
use xbook.Prelude.{set as set_elem}
use xbook.Memory.{Memory}
use xbook.Bitmap.{Bitmap, init, set, scan}

-- `struct MemGroup`: `address` is where it lies, and `bytes` holds its bitmap.
pub record MemGroup : Type 0 where
  pub address : ℕ
  pub map : Bitmap
  pub bytes : Memory
  pub objects : ℕ
  pub using_count : ℕ
  pub free_count : ℕ
  pub flags : ℕ

-- `struct MemCache`, without its name
pub record MemCache : Type 0 where
  pub full_groups : List MemGroup
  pub partial_groups : List MemGroup
  pub free_groups : List MemGroup
  pub object_size : ℕ
  pub flags : ℕ
  pub object_number : ℕ

-- The two calls of `AllocPages` for a new group: the page of the group, with what it holds, and the
-- pages of the objects
pub record PageGrant : Type 0 where
  pub page : Option MemGroup
  pub pages : Option ℕ

-- A size above 4 MB leaves `objectNumber` as it was. `SIZEOF_MEM_GROUP` is 32.
unfoldable pub mem_cache_init : MemCache → ℕ → ℕ → Option MemCache
mem_cache_init cache size flags =
    let number =
      if ltb size 1024
      then (4096 - 32 - 16) / size
      else if leb size (128 * 1024)
      then 2 ^ 20 / size
      else if leb size (4 * 1024 * 1024)
      then 4 * 2 ^ 20 / size
      else cache.object_number in
    if size == 0
    then none
    else some (record {
      full_groups = [];
      partial_groups = [];
      free_groups = [];
      object_size = size;
      flags = flags;
      object_number = number;
    })

-- The group, once its bitmap is set up, and the objects of a cache of small ones behind the bitmap
abbrev pub with_map : MemCache → MemGroup → MemGroup
with_map cache group =
    let bitmap : Bitmap = record {
      bytes_len = (cache.object_number + 8 - 1) / 8;
      bits = group.address + 32;
    } in
    record group { map = bitmap; bytes = init group.bytes bitmap }

abbrev pub with_objects : MemCache → ℕ → ℕ → MemGroup → MemGroup
with_objects cache flags objects group = record group {
  objects = objects;
  using_count = 0;
  free_count = cache.object_number;
  flags = flags;
}

abbrev pub add_free : MemGroup → MemCache → MemCache
add_free group cache = record cache { free_groups = group ∷ cache.free_groups }

-- The group joins the list of free ones first, and stays there when its objects get no pages.
unfoldable pub mem_group_init : Option ℕ → ℕ → MemCache → MemGroup → Bool × MemCache
mem_group_init pages flags cache group =
    let group' = with_map cache group in
    if ltb cache.object_size 1024
    then (true, add_free (with_objects cache flags (group.address + 32 + 16) group') cache)
    else elim pages [
      | none ↦ (false, add_free (record group' { objects = 0 }) cache)
      | some objects ↦ (true, add_free (with_objects cache flags objects group') cache)
    ]

unfoldable pub create_mem_group : PageGrant → ℕ → MemCache → Bool × MemCache
create_mem_group grant flags cache = elim grant.page [
  | none ↦ (false, cache)
  | some group ↦ mem_group_init grant.pages flags cache group
]

-- `__MemGroupAllocObjcet` on the first of the partial groups; `groups` are the others.
abbrev pub take_slot : MemCache → MemGroup → List MemGroup → ℕ → Option ℕ × MemCache
take_slot cache group groups idx =
    let group' : MemGroup = record group {
      bytes = set group.bytes group.map idx 1;
      using_count = (group.using_count + 1) % 2 ^ 32;
      free_count = (group.free_count + 2 ^ 32 - 1) % 2 ^ 32;
    } in
    (
      some (group.objects + idx * cache.object_size),
      if group'.free_count == 0
          then record cache {
            partial_groups = groups;
            full_groups = cache.full_groups ++ group' ∷ [];
          }
          else record cache { partial_groups = group' ∷ groups },
    )

unfoldable pub mem_group_alloc_object : MemCache → MemGroup → List MemGroup → Option ℕ × MemCache
mem_group_alloc_object cache group groups = elim (scan group.bytes group.map 1) [
  | none ↦ (none, record cache { partial_groups = group ∷ groups })
  | some idx ↦ take_slot cache group groups idx
]

-- One round of `GroupAllocObjcet`: `none` if a new group is needed
abbrev pub alloc_from : List MemGroup → List MemGroup → MemCache → Option (Option ℕ × MemCache)
alloc_from (group ∷ groups) free cache = some (mem_group_alloc_object cache group groups)
alloc_from [] (group ∷ free) cache =
    some (mem_group_alloc_object (record cache { free_groups = free }) group [])
alloc_from [] [] cache = none

abbrev pub retry :
    (MemCache → Option (Option ℕ × MemCache)) → Bool × MemCache → Option (Option ℕ × MemCache)
retry again (false, cache) = some (none, cache)
retry again (true, cache) = again cache

-- The rounds of `GroupAllocObjcet`, one more than there are grants; `none` if these are not enough
unfoldable pub group_alloc_object : List PageGrant → MemCache → Option (Option ℕ × MemCache)
group_alloc_object [] cache = alloc_from cache.partial_groups cache.free_groups cache
group_alloc_object (grant ∷ grants) cache =
    elim (alloc_from cache.partial_groups cache.free_groups cache) [
      | some done ↦ some done
      | none ↦ retry (group_alloc_object grants) (create_mem_group grant 0 cache)
    ]

-- Freeing. The page of the object names its group.
unfoldable pub find_group : ℕ → List MemGroup → Option MemGroup
find_group address [] = none
find_group address (group ∷ groups) =
    if group.address == address then some group else find_group address groups

-- `ListDel`: a group is in one list only.
unfoldable pub unlink_group : ℕ → List MemGroup → List MemGroup
unlink_group address [] = []
unlink_group address (group ∷ groups) =
    if group.address == address then groups else group ∷ unlink_group address groups

unfoldable pub put_group : MemGroup → List MemGroup → List MemGroup
put_group group [] = []
put_group group (g ∷ groups) =
    if g.address == group.address then group ∷ groups else g ∷ put_group group groups

abbrev pub unlink : ℕ → MemCache → MemCache
unlink address cache = record cache {
  full_groups = unlink_group address cache.full_groups;
  partial_groups = unlink_group address cache.partial_groups;
  free_groups = unlink_group address cache.free_groups;
}

abbrev pub object_index : MemCache → MemGroup → ℕ → ℕ
object_index cache group object = (object + 2 ^ 32 - group.objects) % 2 ^ 32 / cache.object_size

-- `group` is the group as it stands in its list; the new counts decide which list it goes to.
unfoldable pub free_slot : MemCache → MemGroup → ℕ → MemCache
free_slot cache group index =
    let group' : MemGroup = record group {
      bytes = set group.bytes group.map index 0;
      using_count = (group.using_count + 2 ^ 32 - 1) % 2 ^ 32;
      free_count = (group.free_count + 1) % 2 ^ 32;
    } in
    let unlinked = unlink group.address cache in
    if group'.using_count == 0
    then record unlinked { free_groups = unlinked.free_groups ++ group' ∷ [] }
    else if group.using_count == cache.object_number
    then record unlinked { partial_groups = unlinked.partial_groups ++ group' ∷ [] }
    else record cache {
      full_groups = put_group group' cache.full_groups;
      partial_groups = put_group group' cache.partial_groups;
      free_groups = put_group group' cache.free_groups;
    }

-- `none` is a panic. `address` is the group that the page of the object names.
unfoldable pub group_free_object : ℕ → ℕ → MemCache → Option MemCache
group_free_object address object cache =
    elim (find_group address (cache.full_groups ++ cache.partial_groups ++ cache.free_groups)) [
      | none ↦ none
      | some group ↦
          let index = object_index cache group object in
          if leb (2 ^ 31) index || ltb (group.map.bytes_len * 8) index
          then none
          else some (free_slot cache group index)
    ]

-- `GroupDestory` of each free group: a group leaves its list also when its pages, which
-- `MemCacheFreePages` may refuse, are not all freed. The result is the number of those that are.
abbrev pub destroyed : (ℕ → Bool) → MemCache → MemGroup → Bool
destroyed freed cache group =
    if ltb cache.object_size 1024
    then freed group.address
    else freed group.objects && freed group.address

unfoldable pub count_destroyed : (ℕ → Bool) → MemCache → List MemGroup → ℕ
count_destroyed freed cache [] = 0
count_destroyed freed cache (group ∷ groups) =
    let rest = count_destroyed freed cache groups in
    if destroyed freed cache group then (rest + 1) % 2 ^ 32 else rest

unfoldable pub mem_cache_shrink : (ℕ → Bool) → MemCache → ℕ × MemCache
mem_cache_shrink freed cache = (
  count_destroyed freed cache cache.free_groups * cache.object_number * cache.object_size % 2 ^ 32,
  record cache { free_groups = [] },
)

unfoldable pub kmshrink : (ℕ → Bool) → List MemCache → ℕ × List MemCache
kmshrink freed [] = (0, [])
kmshrink freed (cache ∷ caches) =
    let shrunk = mem_cache_shrink freed cache in
    let rest = kmshrink freed caches in ((shrunk.0 + rest.0) % 2 ^ 32, shrunk.1 ∷ rest.1)

-- `cacheSizes`: the table of the caches is in the same order.
abbrev pub cache_sizes : List ℕ
cache_sizes =
    32
    ∷ 64
    ∷ 128
    ∷ 256
    ∷ 512
    ∷ 1024
    ∷ 2048
    ∷ 4096
    ∷ 8 * 1024
    ∷ 16 * 1024
    ∷ 32 * 1024
    ∷ 64 * 1024
    ∷ 128 * 1024
    ∷ []

-- The loop of `MakeMemCaches` over the table
unfoldable pub make_mem_caches : List ℕ → List MemCache → Option (List MemCache)
make_mem_caches [] caches = some []
make_mem_caches (size ∷ sizes) [] = none
make_mem_caches (size ∷ sizes) (cache ∷ caches) =
    let rest = make_mem_caches sizes caches in
    elim (mem_cache_init cache size 0) [
      | none ↦ none
      | some made ↦ Option.map (λ (more : List MemCache). made ∷ more) rest
    ]

-- The loop of `kmalloc`: the first size that is large enough
unfoldable pub size_index : ℕ → List ℕ → ℕ
size_index size [] = 0
size_index size (s ∷ sizes) = if leb size s then 0 else suc (size_index size sizes)

abbrev pub put_cache : List MemCache → ℕ → Option ℕ × MemCache → Option ℕ × List MemCache
put_cache caches i (object, cache) = (object, set_elem caches i cache)

-- `none` if the grants run out, or if the table has no such cache
unfoldable pub kmalloc : ℕ → List PageGrant → List MemCache → Option (Option ℕ × List MemCache)
kmalloc size grants caches =
    let i = size_index size cache_sizes in
    if ltb (128 * 1024) size then some (none, caches) else elim (get_elem? caches i) [
      | none ↦ none
      | some cache ↦ Option.map (put_cache caches i) (group_alloc_object grants cache)
    ]

-- `node` is the cache and the group that the page of the object names.
unfoldable pub kfree : ℕ × ℕ → ℕ → List MemCache → Option (List MemCache)
kfree node object caches = if object == 0 then some caches else elim (get_elem? caches node.0) [
  | none ↦ none
  | some cache ↦
      Option.map (λ (c : MemCache). set_elem caches node.0 c)
        (group_free_object node.1 object cache)
]
