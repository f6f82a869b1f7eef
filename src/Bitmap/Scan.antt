-- ===== src/Bitmap/Scan.antt =====
-- `BitmapScan`: what it finds, what it misses, and how far it looks.
use xbook.Prelude.{
  ℕ, zero, suc, ◌+◌, ◌-◌, ◌*◌, ◌%◌, ◌^◌, ◌≤◌, ◌<◌, ◌≡◌, ap, ◌∙◌, inl, inr, true, false, none, some,
  ◌==◌, if◌then◌else◌, Bool-cases, Option-cases, arith,
}
use native.Mathlib.Decide.{dec_lt, ℕ_discrete}
use xbook.Memory.{Memory, AreBytes}
use xbook.Bitmap.{Bitmap, scan_test, scan_run, scan}
use xbook.Bitmap.Start.{first_byte, start, start_lem, full_lem}

-- A clear bit lengthens the run that ends before it.
longer :
    (m : Memory) (b : Bitmap) (next count : ℕ)
    → ((i : ℕ) → next ≤ i + count → i < next → scan_test m b i ≡ false)
    → scan_test m b next ≡ false
    → (i : ℕ) → next + 1 ≤ i + (count + 1)
    → i < next + 1
    → scan_test m b i ≡ false
longer m b next count clear miss i u v = elim (dec_lt i next) [
  | yes w ↦ clear i (omega arith) w
  | no w ↦ let e : i ≡ next = omega arith in rw e miss
]

-- The third loop, when it finds: `cnt` clear bits, the last of them tested by the loop.
scan_run_sound :
    (left : ℕ) (m : Memory) (b : Bitmap) (cnt next count s : ℕ)
    → 0 < cnt
    → next + left < 2 ^ 32
    → count ≤ next
    → ((i : ℕ) → next ≤ i + count → i < next → scan_test m b i ≡ false)
    → scan_run left m b cnt next count ≡ some s
    → (s + cnt ≤ next + left) × ((i : ℕ) → s ≤ i → i < s + cnt → scan_test m b i ≡ false)
unfolding scan_run
scan_run_sound zero m b cnt next count s pos small le clear found = cc
scan_run_sound (suc left) m b cnt next count s pos small le clear found =
    let step : (next + 1) % 2 ^ 32 ≡ next + 1 = omega arith in
    elim (Bool-cases (scan_test m b next)) [
      | inl hit ↦
          let ih =
            scan_run_sound left m b cnt (next + 1) 0 s pos (omega arith) (omega arith)
              (λ i u v. absurd (omega arith)) (ground arith) in
          (omega (arith, ih.0), ih.1)
      | inr miss ↦ elim (ℕ_discrete (count + 1) cnt) [
        | yes e ↦
            let place : s ≡ next + 1 - cnt = ground arith in
            (omega arith, λ i u v. longer m b next count clear miss i (omega arith) (omega arith))
        | no ne ↦
            let ih =
              scan_run_sound left m b cnt (next + 1) (count + 1) s pos (omega arith) (omega arith)
                (longer m b next count clear miss) (ground arith) in
            (omega (arith, ih.0), ih.1)
      ]
    ]

-- When it does not: each run of `cnt` bits that it could have found has a bit that is set.
scan_run_complete :
    (left : ℕ) (m : Memory) (b : Bitmap) (cnt next count s : ℕ)
    → next + left < 2 ^ 32
    → count < cnt
    → scan_run left m b cnt next count ≡ none
    → next ≤ s + count
    → s + cnt ≤ next + left
    → ((i : ℕ) → s ≤ i → i < s + cnt → scan_test m b i ≡ false)
    → ⊥
unfolding scan_run
scan_run_complete zero m b cnt next count s small lt gone lo hi clear = omega arith
scan_run_complete (suc left) m b cnt next count s small lt gone lo hi clear =
    let step : (next + 1) % 2 ^ 32 ≡ next + 1 = omega arith in
    elim (Bool-cases (scan_test m b next)) [
      | inl hit ↦ elim (dec_lt next s) [
        | yes w ↦
            scan_run_complete left m b cnt (next + 1) 0 s (omega arith) (omega arith) (ground arith)
              (omega arith) (omega arith) clear
        | no w ↦ ground (arith, clear next (omega arith) (omega arith))
      ]
      | inr miss ↦
          scan_run_complete left m b cnt (next + 1) (count + 1) s (omega arith) (ground arith)
            (ground arith) (omega arith) (omega arith) clear
    ]

-- In a bitmap of fewer than 2^31 bits no index wraps around.
no_wrap :
    (m : Memory) (b : Bitmap)
    → b.bytes_len * 8 < 2 ^ 31
    → start m b < b.bytes_len * 8
    → (start m b % 2 ^ 32 ≡ start m b)
      × ((start m b + 1) % 2 ^ 32 ≡ start m b + 1)
      × ((b.bytes_len * 8 + 2 ^ 32 - start m b) % 2 ^ 32 ≡ b.bytes_len * 8 - start m b)
no_wrap m b small low = (omega arith, omega arith, omega arith)

-- A run that `BitmapScan` returns from a bitmap of fewer than 2^31 bits is `cnt` clear bits. For `cnt = 1` they lie in the bitmap; a
-- longer run may end one bit behind it.
pub scan_sound :
    (m : Memory) (b : Bitmap) (cnt s : ℕ)
    → AreBytes m
    → b.bytes_len * 8 < 2 ^ 31
    → 0 < cnt
    → scan m b cnt ≡ some s
    → ((i : ℕ) → s ≤ i → i < s + cnt → scan_test m b i ≡ false)
      × (s + cnt ≤ (if cnt == 1 then b.bytes_len * 8 else b.bytes_len * 8 + 1))
unfolding scan
scan_sound m b cnt s bytes small pos found = elim (ℕ_discrete (first_byte m b) b.bytes_len) [
  | yes e ↦ ground arith
  | no ne ↦
      let (low, clear, _) = start_lem m b bytes ne in
      let (at, on, left) = no_wrap m b small low in
      let first : (i : ℕ) → start m b + 1 ≤ i + 1 → i < start m b + 1 → scan_test m b i ≡ false =
        λ i u v. let e : i ≡ start m b = omega arith in rw e clear in
      elim (ℕ_discrete cnt 1) [
        | yes one ↦
            let e : s ≡ start m b = ground arith in
            (λ i u v. first i (omega arith) (omega arith), ground arith)
        | no more ↦
            let r =
              scan_run_sound (b.bytes_len * 8 - start m b) m b cnt (start m b + 1) 1 s pos
                (omega arith) (omega arith) first (ground arith) in
            (r.1, ground (arith, r.0))
      ]
]

-- For a single bit `BitmapScan` returns the lowest clear one.
pub scan_one :
    (m : Memory) (b : Bitmap) (s : ℕ)
    → AreBytes m
    → b.bytes_len * 8 < 2 ^ 31
    → s < b.bytes_len * 8
    → scan_test m b s ≡ false
    → (k : ℕ) × (scan m b 1 ≡ some k) × (k ≤ s) × (scan_test m b k ≡ false)
unfolding scan
scan_one m b s bytes small inside clear = elim (ℕ_discrete (first_byte m b) b.bytes_len) [
  | yes e ↦ absurd (ground (arith, full_lem m b s e inside))
  | no ne ↦
      let (low, free, set_below) = start_lem m b bytes ne in
      let (at, _, _) = no_wrap m b small low in
      (start m b, ground arith, ground (arith, set_below s), free)
]

-- If `BitmapScan` returns -1, for a bitmap of fewer than 2^31 bits, the bitmap has no run of `cnt` clear bits, not even one that ends
-- one bit behind it when `cnt` is above 1.
pub scan_complete :
    (m : Memory) (b : Bitmap) (cnt s : ℕ)
    → AreBytes m
    → b.bytes_len * 8 < 2 ^ 31
    → 0 < cnt
    → scan m b cnt ≡ none
    → s < b.bytes_len * 8
    → s + cnt ≤ b.bytes_len * 8 + 1
    → ((i : ℕ) → s ≤ i → i < s + cnt → scan_test m b i ≡ false)
    → ⊥
unfolding scan
scan_complete m b cnt s bytes small pos gone inside fits clear =
    elim (ℕ_discrete (first_byte m b) b.bytes_len) [
      | yes e ↦ ground (arith, clear s (omega arith) (omega arith), full_lem m b s e inside)
      | no ne ↦
          let (low, _, set_below) = start_lem m b bytes ne in
          let (at, on, left) = no_wrap m b small low in
          elim (dec_lt s (start m b)) [
            | yes w ↦ ground (arith, clear s (omega arith) (omega arith), set_below s w)
            | no w ↦
                scan_run_complete (b.bytes_len * 8 - start m b) m b cnt (start m b + 1) 1 s
                  (omega arith) (ground arith) (ground arith) (omega arith) (omega arith) clear
          ]
    ]

-- Where only the last bit of the bitmap is clear and the bit behind the bitmap reads as clear,
-- `BitmapScan` for two bits returns the last bit, so that the run ends outside the bitmap.
pub scan_past_end :
    (m : Memory) (b : Bitmap)
    → AreBytes m
    → b.bytes_len * 8 < 2 ^ 31
    → 0 < b.bytes_len
    → ((i : ℕ) → i + 1 < b.bytes_len * 8 → scan_test m b i ≡ true)
    → scan_test m b (b.bytes_len * 8 - 1) ≡ false
    → scan_test m b (b.bytes_len * 8) ≡ false
    → scan m b 2 ≡ some (b.bytes_len * 8 - 1)
scan_past_end m b bytes small pos used free behind = elim (Option-cases (scan m b 2)) [
  | inl gone ↦ absurd (
      scan_complete m b 2 (b.bytes_len * 8 - 1) bytes small (omega arith) gone (omega arith)
        (omega arith) pair)
  | inr (s, found) ↦
      let (clear, fits) = scan_sound m b 2 s bytes small (omega arith) found in
      elim (dec_lt (s + 1) (b.bytes_len * 8)) [
        | yes w ↦ ground (arith, used s w, clear s (omega arith) (omega arith))
        | no w ↦ let e : s ≡ b.bytes_len * 8 - 1 = ground (arith, fits) in found ∙ ap some e
      ]
]
  where
    pair : (i : ℕ) → b.bytes_len * 8 - 1 ≤ i → i < b.bytes_len * 8 - 1 + 2 → scan_test m b i ≡ false
    pair i u v = elim (ℕ_discrete i (b.bytes_len * 8 - 1)) [
      | yes e ↦ rw e free
      | no ne ↦ let e : i ≡ b.bytes_len * 8 = omega arith in rw e behind
    ]
