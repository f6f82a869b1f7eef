-- ===== src/SigSet/Laws.antt =====
-- Sets of signals as sets: membership after adding, removing, joining and subtracting.
use Prim.Native.Nat.{bit_and, bit_or}
use native.Mathlib.Nat.{pow-suc, pow-le-pow_right, one-le-pow}
use xbook.Prelude.{
  ℕ, suc, ◌^◌, ◌<◌, ◌≡◌, refl, false, not, ◌&&◌, ◌||◌, ◌==◌, every, every_sound, Bool-cases, inl,
  inr, arith,
}
use xbook.Bits.{testbit, complement}
use xbook.Bits.Laws.{testbit-bit_and, testbit-bit_or, testbit-pow, testbit-complement}
use xbook.Bits.Masks.{and_pow_test}
use xbook.SigSet.{is_bad_signal, sigaddset, sigdelset, sigismember, sigemptyset, sigfillset}

pub sigismember_bit :
    (mask signo : ℕ) → sigismember mask signo ≡ (not (is_bad_signal signo) && testbit mask signo)
unfolding sigismember
sigismember_bit mask signo = ground (arith, and_pow_test signo mask)

bit-lt : (n : ℕ) → n < 32 → 2 ^ n < 2 ^ 32
bit-lt n h = omega (
  arith,
  pow-suc 2 n,
  pow-le-pow_right {n = 2} (omega arith) {i = suc n} {j = 32} h,
  one-le-pow n 2,
)

-- Membership after `sigaddset`; a bad signal number adds nothing and is no member.
pub sigismember-sigaddset :
    (mask s t : ℕ)
    → sigismember (sigaddset mask s) t ≡ ((not (is_bad_signal s) && s == t) || sigismember mask t)
unfolding sigaddset
sigismember-sigaddset mask s t = elim (Bool-cases (is_bad_signal s)) [
  | inl bad ↦ rw bad refl
  | inr good ↦
      rw (good, sigismember_bit, sigismember_bit, testbit-bit_or, testbit-pow) (ground arith)
]

-- Membership after `sigdelset`: the signal is no member, and any other one is as before.
pub sigismember-sigdelset :
    (mask s t : ℕ) → sigismember (sigdelset mask s) t ≡ (not (s == t) && sigismember mask t)
unfolding sigdelset
sigismember-sigdelset mask s t = elim (Bool-cases (is_bad_signal s)) [
  | inl bad ↦ rw (bad, sigismember_bit) (ground arith)
  | inr good ↦
      rw (good, sigismember_bit, sigismember_bit, testbit-bit_and)
        (ground (arith, testbit-complement 32 (2 ^ s) t, bit-lt s, testbit-pow s t))
]

-- `|` is union and `& ~` is difference.
pub sigismember-union :
    (a b t : ℕ) → sigismember (bit_or a b) t ≡ (sigismember a t || sigismember b t)
sigismember-union a b t =
    rw (sigismember_bit, sigismember_bit, sigismember_bit, testbit-bit_or) (ground arith)

pub sigismember-difference :
    (a b t : ℕ)
    → b < 2 ^ 32
    → sigismember (bit_and a (complement 32 b)) t ≡ (sigismember a t && not (sigismember b t))
sigismember-difference a b t h =
    rw (sigismember_bit, sigismember_bit, sigismember_bit, testbit-bit_and)
      (ground (arith, testbit-complement 32 b t h))

-- No signal is a member of the empty set, and every signal is one of the full set.
pub sigismember-constants :
    (t : ℕ)
    → (sigismember sigemptyset t ≡ false) × (sigismember sigfillset t ≡ not (is_bad_signal t))
unfolding every testbit
sigismember-constants t = (
  rw (sigismember_bit, testbit-pow 0) (ground arith),
  rw sigismember_bit (elim (Bool-cases (is_bad_signal t)) [
    | inl bad ↦ rw bad
    | inr good ↦ rw good (every_sound 32 (testbit sigfillset) t refl (ground arith))
  ]),
)
