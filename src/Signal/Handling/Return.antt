-- ===== src/Signal/Handling/Return.antt =====
-- A signal handler returns to where the task was interrupted.
use xbook.Prelude.{ℕ, ◌+◌, ◌-◌, ◌^◌, ◌%◌, ◌≡◌, refl, ap, ◌∙◌, true, arith}
use xbook.Bits.Laws.{bit_and-lt}
use xbook.Signal.Handling.{
  TrapFrame, Running, frame_address, build_signal_frame, handle_signal, sys_signal_return,
}

-- The handler's `ret`, which pops the return address.
abbrev pub pop_return : Running → Running
pop_return s = record s { frame = record (s.frame) { esp = (s.frame.esp + 4) % 2 ^ 32 } }

-- When a handler that was entered returns, `SysSignalReturn` gives back the whole trap frame of
-- the interrupted task, returns the `eax` of that frame, and marks the signal as caught.
pub sys_signal_return-handle_signal :
    (signo : ℕ) (s : Running)
    → let (s', eax) = sys_signal_return (pop_return (handle_signal signo s)) in
      (s'.frame ≡ s.frame) × (eax ≡ s.frame.eax) × (s'.task.signal_catched ≡ true)
unfolding sys_signal_return handle_signal build_signal_frame
sys_signal_return-handle_signal signo s =
    let there = bit_and-lt 32 ((s.frame.esp + 2 ^ 32 - 92) % 2 ^ 32) 0xffff_fff8 (omega arith) in
    let found : (((frame_address s.frame + 4) % 2 ^ 32 + 2 ^ 32 - 4) % 2 ^ 32
        ≡ frame_address s.frame) =
      omega (arith, there) in
    let stack = (handle_signal signo s).stack in
    let same : (stack (((frame_address s.frame + 4) % 2 ^ 32 + 2 ^ 32 - 4) % 2 ^ 32)).trap_frame
        ≡ s.frame =
      ap (λ a. (stack a).trap_frame) found ∙ ground arith in
    (same, ap (λ (f : TrapFrame). f.eax) same, refl)
