-- ===== src/SigSet.antt =====
-- share/signal.c and include/share/signal.h: signal numbers, and sets of signals as 32-bit words.
-- A signal number is the bit pattern of an `int`: a negative one reads as a number above 31. Where
-- a function returns -1 the set stays as it is.
pub mod Laws
use Prim.Native.Nat.{bit_and, bit_or}
use xbook.Prelude.{ℕ, ◌^◌, Bool, false, not, ◌||◌, ltb, leb, ◌==◌, if◌then◌else◌}
use xbook.Bits.{complement}

abbrev pub sigkill : ℕ
sigkill = 9

abbrev pub sigusr1 : ℕ
sigusr1 = 10

abbrev pub sigusr2 : ℕ
sigusr2 = 12

abbrev pub sigalrm : ℕ
sigalrm = 14

abbrev pub sigchld : ℕ
sigchld = 17

abbrev pub sigcont : ℕ
sigcont = 18

abbrev pub sigstop : ℕ
sigstop = 19

abbrev pub sigtstp : ℕ
sigtstp = 20

abbrev pub sigttin : ℕ
sigttin = 21

abbrev pub sigttou : ℕ
sigttou = 22

abbrev pub sigurg : ℕ
sigurg = 23

abbrev pub sigwinch : ℕ
sigwinch = 28

abbrev max_signal_nr : ℕ
max_signal_nr = 32

abbrev pub SigSet : Type 0
SigSet = ℕ

-- `IS_BAD_SIGNAL`
abbrev pub is_bad_signal : ℕ → Bool
is_bad_signal signo = ltb signo 1 || leb max_signal_nr signo

unfoldable pub sigaddset : SigSet → ℕ → SigSet
sigaddset mask signo = if is_bad_signal signo then mask else bit_or mask (2 ^ signo)

unfoldable pub sigdelset : SigSet → ℕ → SigSet
sigdelset mask signo =
    if is_bad_signal signo then mask else bit_and mask (complement 32 (2 ^ signo))

-- The empty set has bit 0 set, which is no signal.
abbrev pub sigemptyset : SigSet
sigemptyset = 1

abbrev pub sigfillset : SigSet
sigfillset = 0xffff_ffff

unfoldable pub sigismember : SigSet → ℕ → Bool
sigismember mask signo = if is_bad_signal signo then false else not (bit_and mask (2 ^ signo) == 0)

abbrev pub sigisempty : SigSet → Bool
sigisempty mask = not (ltb 1 mask)

abbrev pub sigisfull : SigSet → Bool
sigisfull mask = mask == 0xffff_ffff
