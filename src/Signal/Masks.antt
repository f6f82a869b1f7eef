-- ===== src/Signal/Masks.antt =====
-- `SysSignalProcessMask` and `SysSignalPending` of kernel/signal.c. A NULL `set` is `none`; an old
-- set that was not asked for is a result that nobody reads.
use Prim.Native.Nat.{bit_and, bit_or}
use xbook.Prelude.{
  ℕ, ◌^◌, ◌<◌, ◌≡◌, refl, Bool, true, false, not, ◌&&◌, ◌||◌, Option, none, some, ◌==◌,
  if◌then◌else◌, arith,
}
use xbook.Bits.{complement}
use xbook.SigSet.{SigSet, sigkill, sigstop, sigdelset, sigismember}
use xbook.SigSet.Laws.{sigismember-sigdelset, sigismember-union, sigismember-difference}
use xbook.Task.{Task}

abbrev sig_block : ℕ
sig_block = 1

abbrev sig_unblock : ℕ
sig_unblock = 2

abbrev sig_setmask : ℕ
sig_setmask = 3

-- `sigdelset` of SIGKILL, then of SIGSTOP
abbrev without_fatal : SigSet → SigSet
without_fatal set = sigdelset (sigdelset set sigkill) sigstop

abbrev set_blocked : SigSet → Task → Task
set_blocked set task = record task { signal_blocked = set }

-- The result (false for -1), the old set and the task.
unfoldable pub sys_signal_process_mask : ℕ → Option SigSet → Task → Bool × SigSet × Task
sys_signal_process_mask how set task =
    if how == sig_block
    then (
      true,
      task.signal_blocked,
      elim set [
        | none ↦ task
        | some new ↦ set_blocked (without_fatal (bit_or task.signal_blocked new)) task
      ],
    )
    else if how == sig_unblock
    then (
      true,
      task.signal_blocked,
      elim set [
        | none ↦ task
        | some new ↦ set_blocked (bit_and task.signal_blocked (complement 32 new)) task
      ],
    )
    else if how == sig_setmask
    then (
      true,
      task.signal_blocked,
      elim set [ none ↦ task | some new ↦ set_blocked (without_fatal new) task ],
    )
    else (false, task.signal_blocked, task)

-- `none` for the -1 of a NULL pointer.
unfoldable pub sys_signal_pending : (set_is_null : Bool) → Task → Option SigSet
sys_signal_pending set_is_null task = if set_is_null then none else some task.signal_pending

-- Which signals are blocked afterwards, for each way and set: those of both sets without SIGKILL
-- and SIGSTOP, those of the old set without the new, or those of the new set without SIGKILL and
-- SIGSTOP. Any other way fails and leaves the task as it is, and the old set is always handed back.
pub sys_signal_process_mask_lem :
    (how new t : ℕ) (task : Task)
    → new < 2 ^ 32
    → let (ok, old, task') = sys_signal_process_mask how (some new) task in
      (sigismember task'.signal_blocked t ≡ (
        if how == sig_block
        then not (t == sigkill || t == sigstop)
          && (sigismember task.signal_blocked t || sigismember new t)
        else if how == sig_unblock
        then sigismember task.signal_blocked t && not (sigismember new t)
        else if how == sig_setmask
        then not (t == sigkill || t == sigstop) && sigismember new t
        else sigismember task.signal_blocked t))
      × (ok ≡ (how == sig_block || (how == sig_unblock || how == sig_setmask)))
      × (old ≡ task.signal_blocked)
unfolding sys_signal_process_mask
sys_signal_process_mask_lem how new t task h = (
  ground (
    arith,
    sigismember-sigdelset (sigdelset (bit_or task.signal_blocked new) sigkill) sigstop t,
    sigismember-sigdelset (bit_or task.signal_blocked new) sigkill t,
    sigismember-sigdelset (sigdelset new sigkill) sigstop t,
    sigismember-sigdelset new sigkill t,
    sigismember-union task.signal_blocked new t,
    sigismember-difference task.signal_blocked new t h,
  ),
  ground arith,
  ground arith,
)

-- SIGKILL and SIGSTOP, once unblocked, stay so whatever masks a process sets.
pub fatal_unblocked :
    (how : ℕ) (set : Option SigSet) (task : Task)
    → sigismember task.signal_blocked sigkill ≡ false
    → sigismember task.signal_blocked sigstop ≡ false
    → ((new : ℕ) → set ≡ some new → new < 2 ^ 32)
    → let task' = (sys_signal_process_mask how set task).2 in
      (sigismember task'.signal_blocked sigkill ≡ false)
      × (sigismember task'.signal_blocked sigstop ≡ false)
unfolding sys_signal_process_mask
fatal_unblocked how none task p q h = (ground arith, ground arith)
fatal_unblocked how (some new) task p q h = (
  ground (arith, (sys_signal_process_mask_lem how new sigkill task (h new refl)).0),
  ground (arith, (sys_signal_process_mask_lem how new sigstop task (h new refl)).0),
)
