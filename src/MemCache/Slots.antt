-- ===== src/MemCache/Slots.antt =====
-- One slot of a group is taken or given back.
use xbook.Prelude.{
  ℕ, ◌+◌, ◌-◌, ◌*◌, ◌%◌, ◌^◌, ◌<◌, ◌≡◌, ◌≢◌, refl, true, false, not, ◌&&◌, some, ◌==◌, arith, sym,
  ◌∙◌,
}
use xbook.Bitmap.{scan_test, set, scan}
use xbook.Bitmap.Change.{scan_test-set, set-AreBytes}
use xbook.Bitmap.Scan.{scan_one}
use xbook.MemCache.{MemGroup}
use xbook.MemCache.Counts.{one, count_below, count_below-le, count_below-change, count_below-short}
use xbook.MemCache.Invariant.{live, covers, at_address, IsGroup}

-- The group with the bit `k` set to `value`, and its counts
abbrev pub with_slot : MemGroup → ℕ → ℕ → ℕ → ℕ → MemGroup
with_slot g k value using free = record g {
  bytes = set g.bytes g.map k value;
  using_count = using;
  free_count = free;
}

-- Where the bit was different, the number of bits set is one more or one less.
used-with_slot :
    (n : ℕ) (g : MemGroup) (k value : ℕ)
    → k < n
    → count_below n (scan_test (set g.bytes g.map k value) g.map) + one (scan_test g.bytes g.map k)
      ≡ count_below n (scan_test g.bytes g.map) + one (not (value == 0))
used-with_slot n g k value lt =
    let p = scan_test g.bytes g.map in
    let q = scan_test (set g.bytes g.map k value) g.map in
    let at : q k ≡ not (value == 0) = scan_test-set g.bytes g.map k k value ∙ ground arith in
    let same : (i : ℕ) → i ≢ k → p i ≡ q i =
      λ i ne. ground (arith, scan_test-set g.bytes g.map k i value) in
    sym (rw (← at) (count_below-change n k p q lt same))

pub covers-with_slot :
    (n size a : ℕ) (g : MemGroup) (k value using free : ℕ)
    → covers n size a (with_slot g k value using free) ≡ covers n size a g
unfolding covers
covers-with_slot n size a g k value using free = refl

pub at_address-with_slot :
    (a : ℕ) (g : MemGroup) (k value using free : ℕ)
    → at_address a (with_slot g k value using free) ≡ at_address a g
unfolding at_address
at_address-with_slot a g k value using free = refl

pub live-with_slot :
    (n size a : ℕ) (g : MemGroup) (k value using free : ℕ)
    → k < n
    → live n size a (with_slot g k value using free)
        + one (g.objects + k * size == a && scan_test g.bytes g.map k)
      ≡ live n size a g + one (g.objects + k * size == a && not (value == 0))
unfolding live
live-with_slot n size a g k value using free lt =
    let p = λ (i : ℕ). g.objects + i * size == a && scan_test g.bytes g.map i in
    let q = λ (i : ℕ). g.objects + i * size == a && scan_test (set g.bytes g.map k value) g.map i in
    let at : scan_test (set g.bytes g.map k value) g.map k ≡ not (value == 0) =
      scan_test-set g.bytes g.map k k value ∙ ground arith in
    let same : (i : ℕ) → i ≢ k → p i ≡ q i =
      λ i ne. ground (arith, scan_test-set g.bytes g.map k i value) in
    sym (rw (← at) (count_below-change n k p q lt same))

-- A group with a free slot gives the lowest one.
pub scan_group :
    (n : ℕ) (g : MemGroup)
    → IsGroup n g
    → g.using_count < n
    → (k : ℕ) × (k < n) × (scan g.bytes g.map 1 ≡ some k) × (scan_test g.bytes g.map k ≡ false)
scan_group n g ok lt =
    let (s, below, clear) =
      count_below-short n (scan_test g.bytes g.map) (omega (arith, ok.counted)) in
    let (k, found, le, free) =
      scan_one g.bytes g.map s ok.bytes (omega (arith, ok.mapped, ok.small))
        (omega (arith, ok.mapped)) clear in
    (k, omega arith, found, free)

pub take-IsGroup :
    (n : ℕ) (g : MemGroup) (k : ℕ)
    → IsGroup n g
    → k < n
    → scan_test g.bytes g.map k ≡ false
    → IsGroup n
        (with_slot g k 1 ((g.using_count + 1) % 2 ^ 32) ((g.free_count + 2 ^ 32 - 1) % 2 ^ 32))
      × (g.using_count < n)
take-IsGroup n g k ok lt clear =
    let q = scan_test (set g.bytes g.map k 1) g.map in
    let step : count_below n q + 0 ≡ g.using_count + 1 =
      ground (arith, used-with_slot n g k 1 lt) in
    let le = count_below-le n q in
    (
      record {
        bytes = set-AreBytes g.bytes g.map k 1 ok.bytes;
        mapped = ok.mapped;
        small = ok.small;
        counted = omega arith;
        split = omega arith;
      },
      omega arith,
    )

pub give-IsGroup :
    (n : ℕ) (g : MemGroup) (k : ℕ)
    → IsGroup n g
    → k < n
    → scan_test g.bytes g.map k ≡ true
    → IsGroup n
        (with_slot g k 0 ((g.using_count + 2 ^ 32 - 1) % 2 ^ 32) ((g.free_count + 1) % 2 ^ 32))
      × (0 < g.using_count)
give-IsGroup n g k ok lt used =
    let q = scan_test (set g.bytes g.map k 0) g.map in
    let step : count_below n q + 1 ≡ g.using_count + 0 =
      ground (arith, used-with_slot n g k 0 lt) in
    let le = count_below-le n (scan_test g.bytes g.map) in
    (
      record {
        bytes = set-AreBytes g.bytes g.map k 0 ok.bytes;
        mapped = ok.mapped;
        small = ok.small;
        counted = omega arith;
        split = omega arith;
      },
      omega arith,
    )
