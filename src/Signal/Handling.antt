-- ===== src/Signal/Handling.antt =====
-- `DoSignal`, `HandleSignal`, `BuildSignalFrame` and `SysSignalReturn` of kernel/signal.c: a task
-- takes its pending signals on the way back to user space.
pub mod Rounds
pub mod Exits
pub mod Return
use Prim.Native.Nat.{bit_and}
use xbook.Prelude.{
  ℕ, zero, suc, ◌+◌, ◌-◌, ◌*◌, ◌^◌, ◌%◌, Bool, true, false, not, ◌&&◌, ◌||◌, List, [], ◌∷◌, ◌==◌,
  if◌then◌else◌,
}
use xbook.SigSet.{
  SigSet, sigusr1, sigusr2, sigchld, sigcont, sigurg, sigwinch, sigaddset, sigdelset,
}
use xbook.Task.{Status, stopped, Action, Task, write_at}
use xbook.Signal.{sig_dfl, sig_ign, calc_signal_left, is_stop_signal}

-- `struct TrapFrame` of arch/x86/include/kernel/interrupt.h
pub record TrapFrame : Type 0 where
  pub vec_no : ℕ
  pub edi : ℕ
  pub esi : ℕ
  pub ebp : ℕ
  pub esp_dummy : ℕ
  pub ebx : ℕ
  pub edx : ℕ
  pub ecx : ℕ
  pub eax : ℕ
  pub gs : ℕ
  pub fs : ℕ
  pub es : ℕ
  pub ds : ℕ
  pub error_code : ℕ
  pub eip : ℕ
  pub cs : ℕ
  pub eflags : ℕ
  pub esp : ℕ
  pub ss : ℕ

-- `SignalFrame_t`, with the seven bytes of `retCode` that are written
pub record SignalFrame : Type 0 where
  pub ret_addr : ℕ
  pub signo : ℕ
  pub trap_frame : TrapFrame
  pub ret_code : List ℕ

abbrev pub user_code_sel : ℕ
user_code_sel = 4 * 8 + 3

abbrev pub user_data_sel : ℕ
user_data_sel = 5 * 8 + 3

-- `sizeof(SignalFrame_t)`: two words, the 19 of the trap frame, and 8 bytes
abbrev signal_frame_size : ℕ
signal_frame_size = 92

-- What a task handles signals with: itself, its trap frame, and what the memory of its user stack
-- reads as at an address, taken as a signal frame. Frames that do not overlap stay apart.
pub record Running : Type 0 where
  pub task : Task
  pub frame : TrapFrame
  pub stack : ℕ → SignalFrame

-- Where `BuildSignalFrame` puts the signal frame
abbrev pub frame_address : TrapFrame → ℕ
frame_address frame = bit_and ((frame.esp + 2 ^ 32 - signal_frame_size) % 2 ^ 32) 0xffff_fff8

unfoldable pub build_signal_frame : ℕ → Action → TrapFrame → SignalFrame × TrapFrame
build_signal_frame signo sa frame =
    let address = frame_address frame in
    (
      record {
        ret_addr = (address + 84) % 2 ^ 32;
        signo = signo;
        trap_frame = frame;
        ret_code = 0xb8 ∷ 36 ∷ 0 ∷ 0 ∷ 0 ∷ 0xcd ∷ 0x80 ∷ [];
      },
      record frame {
        eip = sa.handler;
        esp = address;
        ds = user_data_sel;
        es = user_data_sel;
        fs = user_data_sel;
        gs = user_data_sel;
        ss = user_data_sel;
        cs = user_code_sel;
      },
    )

-- `HandleSignal`; flag 1 is SA_ONESHOT.
unfoldable pub handle_signal : ℕ → Running → Running
handle_signal signo s =
    let sa = s.task.action (signo - 1) in
    let (saved, frame) = build_signal_frame signo sa s.frame in
    record s {
      task = if bit_and sa.flags 1 == 0 then s.task else record (s.task) {
        action = write_at s.task.action (signo - 1) (record sa { handler = sig_dfl });
      };
      frame = frame;
      stack = write_at s.stack (frame_address s.frame) saved;
    }

-- `SysSignalReturn`, entered with the handler's frame
unfoldable pub sys_signal_return : Running → Running × ℕ
sys_signal_return s =
    let frame = (s.stack ((s.frame.esp + 2 ^ 32 - 4) % 2 ^ 32)).trap_frame in
    (record s { task = record (s.task) { signal_catched = true }; frame = frame }, frame.eax)

-- How `DoSignal` ends: it returns, or `SysExit` is called, which does not.
pub data Outcome : Type 0 where
  returned : Running → Outcome
  exited : ℕ → Running → Outcome

-- The signals whose default is to be ignored
abbrev pub is_harmless : ℕ → Bool
is_harmless sig =
    sig == sigcont
    || (sig == sigchld
        || (sig == sigwinch || (sig == sigurg || (sig == sigusr1 || sig == sigusr2))))

-- The default of a signal. `resume` is what the task is when `Schedule` comes back to it.
unfoldable pub default_action : (Task → Task) → ℕ → Running → Outcome
default_action resume sig s =
    if s.task.pid == 0 || is_harmless sig
    then returned s
    else if is_stop_signal sig
    then returned
        (record s { task = resume (record (s.task) { status = stopped; exit_status = sig }) })
    else exited sig (record s {
      task =
          calc_signal_left
            (record (s.task) { signal_pending = sigaddset s.task.signal_pending sig });
    })

-- The signal is no longer pending and has no sender.
unfoldable pub take : ℕ → Task → Task
take sig task = calc_signal_left (record task {
  signal_pending = sigdelset task.signal_pending sig;
  sender = write_at task.sender (sig - 1) (2 ^ 32 - 1);
})

abbrev pub is_due : ℕ → Task → Bool
is_due sig task =
    not (bit_and task.signal_pending (2 ^ sig) == 0) && bit_and task.signal_blocked (2 ^ sig) == 0

-- A round of the loop of `DoSignal`
unfoldable pub receive : (Task → Task) → ℕ → Running → Outcome
receive resume sig s =
    let s' = record s { task = take sig s.task } in
    let handler = (s.task.action (sig - 1)).handler in
    if not (is_due sig s.task)
    then returned s
    else if handler == sig_ign
    then returned s'
    else if handler == sig_dfl
    then default_action resume sig s'
    else returned (handle_signal sig s')

-- The loop, for that many signals from `sig` on
unfoldable pub do_signals : ℕ → (Task → Task) → ℕ → Running → Outcome
do_signals zero resume sig s = returned s
do_signals (suc rounds) resume sig s =
    if s.task.signal_left
    then elim (receive resume sig s) [
      | returned s' ↦ do_signals rounds resume (sig + 1) s'
      | exited status s' ↦ exited status s'
    ]
    else returned s

-- `DoSignal`; both -1 and 0 are `returned`.
unfoldable pub do_signal : (Task → Task) → Running → Outcome
do_signal resume s =
    if not s.task.signal_left || not (s.frame.cs == user_code_sel)
    then returned s
    else do_signals 31 resume 1 s
