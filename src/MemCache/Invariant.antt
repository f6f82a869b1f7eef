-- ===== src/MemCache/Invariant.antt =====
-- What holds of a cache between calls, and which objects are in use.
use xbook.Prelude.{
  ℕ, ◌+◌, ◌*◌, ◌^◌, ◌≤◌, ◌<◌, ◌≡◌, ◌&&◌, List, [], ◌∷◌, ◌++◌, ltb, leb, ◌==◌, arith,
}
use xbook.Memory.{AreBytes}
use xbook.Bitmap.{scan_test}
use xbook.MemCache.{MemGroup, MemCache}
use xbook.MemCache.Counts.{one, count_below, count_below_mono}

abbrev pub All {ℓ κ} : {A : Type ℓ} → (A → Type κ) → List A → Type κ
All P [] = Unit
All P (x ∷ xs) = P x × All P xs

pub All-append {ℓ κ} :
    {A : Type ℓ} (P : A → Type κ) (xs ys : List A) → All P xs → All P ys → All P (xs ++ ys)
All-append P [] ys h k = k
All-append P (x ∷ xs) ys h k = (h.0, All-append P xs ys h.1 k)

unfoldable pub sum_of {ℓ} : {A : Type ℓ} → (A → ℕ) → List A → ℕ
sum_of f [] = 0
sum_of f (x ∷ xs) = f x + sum_of f xs

pub sum_of-append {ℓ} :
    {A : Type ℓ} (f : A → ℕ) (xs ys : List A) → sum_of f (xs ++ ys) ≡ sum_of f xs + sum_of f ys
unfolding sum_of
sum_of-append f [] ys = omega arith
sum_of-append f (x ∷ xs) ys = omega (arith, sum_of-append f xs ys)

-- Over all groups of a cache
abbrev pub total : (MemGroup → ℕ) → MemCache → ℕ
total f c = sum_of f c.full_groups + sum_of f c.partial_groups + sum_of f c.free_groups

-- How many objects of `size` bytes in use start at an address, and how many slots contain it
unfoldable pub live : ℕ → ℕ → ℕ → MemGroup → ℕ
live number size a g =
    count_below number (λ i. g.objects + i * size == a && scan_test g.bytes g.map i)

unfoldable pub covers : ℕ → ℕ → ℕ → MemGroup → ℕ
covers number size a g =
    count_below number (λ i. leb (g.objects + i * size) a && ltb a (g.objects + i * size + size))

unfoldable pub at_address : ℕ → MemGroup → ℕ
at_address a g = one (g.address == a)

abbrev pub live_in : MemCache → ℕ → ℕ
live_in c a = total (live c.object_number c.object_size a) c

abbrev pub covers_in : MemCache → ℕ → ℕ
covers_in c a = total (covers c.object_number c.object_size a) c

-- The counts of a group fit its bitmap.
pub record IsGroup (number : ℕ) (g : MemGroup) : Type 0 where
  pub bytes : AreBytes g.bytes
  pub mapped : number ≤ g.map.bytes_len * 8
  pub small : g.map.bytes_len * 8 < 2 ^ 31
  pub counted : count_below number (scan_test g.bytes g.map) ≡ g.using_count
  pub split : g.using_count + g.free_count ≡ number

abbrev pub IsFull : ℕ → MemGroup → Type 0
IsFull number g = IsGroup number g × (g.using_count ≡ number)

abbrev pub IsPartial : ℕ → MemGroup → Type 0
IsPartial number g = IsGroup number g × (0 < g.using_count) × (g.using_count < number)

abbrev pub IsFree : ℕ → MemGroup → Type 0
IsFree number g = IsGroup number g × (g.using_count ≡ 0)

-- Each list holds the groups that its name says, no byte lies in two slots, and each group is there
-- once.
pub record IsCache (c : MemCache) : Type 0 where
  pub sized : 0 < c.object_size
  pub numbered : 0 < c.object_number
  pub bounded : c.object_number < 2 ^ 30
  pub full : All (IsFull c.object_number) c.full_groups
  pub partial : All (IsPartial c.object_number) c.partial_groups
  pub free : All (IsFree c.object_number) c.free_groups
  pub apart : (a : ℕ) → covers_in c a ≤ 1
  pub single : (a : ℕ) → total (at_address a) c ≤ 1

sum_of_mono :
    (f g : MemGroup → ℕ) (gs : List MemGroup)
    → ((x : MemGroup) → f x ≤ g x)
    → sum_of f gs ≤ sum_of g gs
unfolding sum_of
sum_of_mono f g [] h = omega arith
sum_of_mono f g (x ∷ gs) h = omega (arith, h x, sum_of_mono f g gs h)

live-le-covers :
    (number size a : ℕ) (g : MemGroup) → 0 < size → live number size a g ≤ covers number size a g
unfolding live covers
live-le-covers number size a g pos = count_below_mono number _ _ (λ i lt e. ground arith)

-- No address is the start of two objects in use.
pub live_in-le-one : (c : MemCache) (a : ℕ) → IsCache c → live_in c a ≤ 1
live_in-le-one c a ok =
    let f = live c.object_number c.object_size a in
    let g = covers c.object_number c.object_size a in
    let le = λ (x : MemGroup). live-le-covers c.object_number c.object_size a x ok.sized in
    omega (
      arith,
      sum_of_mono f g c.full_groups le,
      sum_of_mono f g c.partial_groups le,
      sum_of_mono f g c.free_groups le,
      ok.apart a,
    )
