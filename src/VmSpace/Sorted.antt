-- ===== src/VmSpace/Sorted.antt =====
-- The invariant of the list of spaces, and which addresses it maps.
use Prim.Native.Nat.{max}
use xbook.Prelude.{
  ℕ, ◌≤◌, ◌<◌, ◌≡◌, refl, ◌∙◌, inl, inr, Bool, true, false, ◌&&◌, ◌||◌, List, [], ◌∷◌, ◌++◌, ltb,
  leb, leb→le, Bool-cases, arith,
}
use xbook.VmSpace.{VmSpace, user_vm_size, find_vm_space, insert_vm_space}

-- From `low` on the spaces are not empty, in order, disjoint, and in the user's half of memory.
abbrev pub IsSorted : ℕ → List VmSpace → Type 0
IsSorted low [] = low ≤ user_vm_size
IsSorted low (space ∷ next) =
    (low ≤ space.start) × (space.start < space.end) × IsSorted space.end next

-- Is `a` an address of one of the spaces?
unfoldable pub maps : List VmSpace → ℕ → Bool
maps [] a = false
maps (space ∷ next) a = (leb space.start a && ltb a space.end) || maps next a

pub IsSorted-bounded : (low : ℕ) (spaces : List VmSpace) → IsSorted low spaces → low ≤ user_vm_size
IsSorted-bounded low [] h = h
IsSorted-bounded low (space ∷ next) (p, q, h) = omega (arith, IsSorted-bounded space.end next h)

pub IsSorted-weaken :
    (low low' : ℕ) (spaces : List VmSpace) → low' ≤ low → IsSorted low spaces → IsSorted low' spaces
IsSorted-weaken low low' [] le h = omega arith
IsSorted-weaken low low' (space ∷ next) le (p, q, h) = (omega arith, q, h)

pub maps-append : (xs ys : List VmSpace) (a : ℕ) → maps (xs ++ ys) a ≡ (maps xs a || maps ys a)
unfolding maps
maps-append [] ys a = refl
maps-append (x ∷ xs) ys a = ground (arith, maps-append xs ys a)

-- Below the first space nothing is mapped.
pub maps_below :
    (low a : ℕ) (spaces : List VmSpace) → IsSorted low spaces → a < low → maps spaces a ≡ false
unfolding maps
maps_below low a [] h lt = refl
maps_below low a (space ∷ next) (p, q, h) lt =
    ground (arith, maps_below space.end a next h (omega arith))

-- The list found by `FindVMSpace` splits the list, and behind the address nothing stands before it.
pub find_vm_space_split :
    (spaces : List VmSpace) (addr : ℕ)
    → (find_vm_space spaces addr).0 ++ (find_vm_space spaces addr).1 ≡ spaces
unfolding find_vm_space
find_vm_space_split [] addr = refl
find_vm_space_split (space ∷ next) addr = ground (arith, find_vm_space_split next addr)

-- Nothing is mapped from `low` up to `high`.
abbrev pub IsFree : List VmSpace → ℕ → ℕ → Type 0
IsFree spaces low high = (a : ℕ) → low ≤ a → a < high → maps spaces a ≡ false

-- From the address on the nodes before the found one map nothing.
pub maps-find :
    (low : ℕ) (spaces : List VmSpace) (addr a : ℕ)
    → IsSorted low spaces
    → addr ≤ a
    → maps spaces a ≡ maps ((find_vm_space spaces addr).1) a
unfolding find_vm_space maps
maps-find low [] addr a h le = refl
maps-find low (space ∷ next) addr a (p, q, h) le =
    ground (arith, maps-find space.end next addr a h le)

-- The nodes from the found one on are sorted, and so are the nodes before it.
pub found-IsSorted :
    (low : ℕ) (spaces : List VmSpace) (addr : ℕ)
    → IsSorted low spaces
    → IsSorted low ((find_vm_space spaces addr).1)
unfolding find_vm_space
found-IsSorted low [] addr h = h
found-IsSorted low (space ∷ next) addr (p, q, h) = elim (Bool-cases (ltb addr space.end)) [
  | inl here ↦ rw here (p, q, h)
  | inr later ↦
      rw later
        (IsSorted-weaken space.end low _ (omega arith) (found-IsSorted space.end next addr h))
]

-- Does the first node end behind `addr`?
abbrev pub ends_behind : List VmSpace → ℕ → Bool
ends_behind [] addr = true
ends_behind (space ∷ _) addr = ltb addr space.end

pub found-ends_behind :
    (spaces : List VmSpace) (addr : ℕ) → ends_behind ((find_vm_space spaces addr).1) addr ≡ true
unfolding find_vm_space
found-ends_behind [] addr = refl
found-ends_behind (space ∷ next) addr = elim (Bool-cases (ltb addr space.end)) [
  | inl here ↦ rw here here
  | inr later ↦ rw later (found-ends_behind next addr)
]

pub IsSorted-ends_behind :
    (low : ℕ) (spaces : List VmSpace) → IsSorted low spaces → ends_behind spaces low ≡ true
IsSorted-ends_behind low [] h = refl
IsSorted-ends_behind low (space ∷ next) (p, q, h) = ground arith

-- Does what was found start at `high` or behind it?
abbrev pub starts_behind : List VmSpace → ℕ → Bool
starts_behind [] high = true
starts_behind (space ∷ _) high = leb high space.start

pub found-IsFree :
    (spaces : List VmSpace) (low addr high : ℕ)
    → IsSorted low spaces
    → starts_behind ((find_vm_space spaces addr).1) high ≡ true
    → IsFree spaces addr high
unfolding maps
found-IsFree spaces low addr high h behind a le lt =
    maps-find low spaces addr a h le
    ∙ go ((find_vm_space spaces addr).1) (found-IsSorted low spaces addr h) behind
  where
    go :
        (found : List VmSpace)
        → IsSorted low found
        → starts_behind found high ≡ true
        → maps found a ≡ false
    go [] s b = refl
    go (space ∷ next) (p, q, s) b =
        ground (arith, maps_below space.end a next s (omega (arith, leb→le high space.start b)))

-- Insertion of a free range keeps the order.
pub insert-IsSorted :
    (low : ℕ) (spaces : List VmSpace) (space : VmSpace)
    → IsSorted low spaces
    → low ≤ space.start
    → space.start < space.end
    → space.end ≤ user_vm_size
    → IsFree spaces space.start space.end
    → IsSorted low (insert_vm_space spaces space)
unfolding insert_vm_space maps
insert-IsSorted low [] space h p q r free = (p, q, r)
insert-IsSorted low (first ∷ next) space (p', q', h) p q r free =
    elim (Bool-cases (leb space.end first.start)) [
      | inl before ↦ rw before (p, q, (leb→le _ _ before, q', h))
      | inr behind ↦ rw behind (
        p',
        q',
        insert-IsSorted first.end next space h (ground (arith, free (max space.start first.start)))
            q r (λ a u v. ground (arith, free a u v)),
      )
    ]

-- An insertion maps the new range, and what was mapped before.
pub maps-insert :
    (spaces : List VmSpace) (space : VmSpace) (a : ℕ)
    → maps (insert_vm_space spaces space) a
      ≡ ((leb space.start a && ltb a space.end) || maps spaces a)
unfolding insert_vm_space maps
maps-insert [] space a = refl
maps-insert (first ∷ next) space a = ground (arith, maps-insert next space a)

-- The end of the last space, or `addr`.
abbrev pub last_end : ℕ → List VmSpace → ℕ
last_end addr [] = addr
last_end addr (space ∷ next) = last_end space.end next

-- The order of a list, at a place inside it.
pub IsSorted-append :
    (low : ℕ) (xs ys : List VmSpace) → IsSorted low (xs ++ ys) → IsSorted (last_end low xs) ys
IsSorted-append low [] ys h = h
IsSorted-append low (x ∷ xs) ys (p, q, h) = IsSorted-append x.end xs ys h

pub IsSorted-replace :
    (low : ℕ) (xs ys zs : List VmSpace)
    → IsSorted low (xs ++ ys)
    → IsSorted (last_end low xs) zs
    → IsSorted low (xs ++ zs)
IsSorted-replace low [] ys zs h k = k
IsSorted-replace low (x ∷ xs) ys zs (p, q, h) k = (p, q, IsSorted-replace x.end xs ys zs h k)

-- The nodes before the found one end at the address at the latest.
pub maps-before :
    (spaces : List VmSpace) (addr a : ℕ) → addr ≤ a → maps ((find_vm_space spaces addr).0) a ≡ false
unfolding find_vm_space maps
maps-before [] addr a le = refl
maps-before (space ∷ next) addr a le = ground (arith, maps-before next addr a le)
