-- ===== src/X86/Handler.antt =====
-- `inthandler` of wasabi/src/x86.rs and the structure that it gets from the entry code. What it logs is
-- a list of messages; `panic!` ends it.
use native.Mathlib.Omega.{arith}
use osdev_hikalium.Prelude.{
  ◌≢◌, ℕ, ◌+◌, ◌*◌, ◌≡◌, refl, Bool, ◌==◌, if◌then◌else◌, bit_and, List, [], ◌∷◌, not, zero, suc,
}
use osdev_hikalium.Prelude.Usize.{Outcome, ok, panic}

pub record GeneralRegisterContext : Type 0 where
  pub rax : ℕ
  pub rdx : ℕ
  pub rbx : ℕ
  pub rbp : ℕ
  pub rsi : ℕ
  pub rdi : ℕ
  pub r8 : ℕ
  pub r9 : ℕ
  pub r10 : ℕ
  pub r11 : ℕ
  pub r12 : ℕ
  pub r13 : ℕ
  pub r14 : ℕ
  pub r15 : ℕ
  pub rcx : ℕ

pub record InterrupContext : Type 0 where
  pub rip : ℕ
  pub cs : ℕ
  pub rflags : ℕ
  pub rsp : ℕ
  pub ss : ℕ

-- `InterrupInfo`, whose first 512 bytes are 64 words.
pub record InterrupInfo : Type 0 where
  pub fpu_context : ℕ → ℕ
  pub dummy : ℕ
  pub greg : GeneralRegisterContext
  pub error_code : ℕ
  pub ctx : InterrupContext

-- The structure in memory at an address, in the order of its fields.
unfoldable pub info_at : (ℕ → ℕ) → ℕ → InterrupInfo
info_at mem base = record {
  fpu_context = λ i. mem (base + 8 * i);
  dummy = mem (base + 512);
  greg = record {
    rax = mem (base + 520);
    rdx = mem (base + 528);
    rbx = mem (base + 536);
    rbp = mem (base + 544);
    rsi = mem (base + 552);
    rdi = mem (base + 560);
    r8 = mem (base + 568);
    r9 = mem (base + 576);
    r10 = mem (base + 584);
    r11 = mem (base + 592);
    r12 = mem (base + 600);
    r13 = mem (base + 608);
    r14 = mem (base + 616);
    r15 = mem (base + 624);
    rcx = mem (base + 632);
  };
  error_code = mem (base + 640);
  ctx = record {
    rip = mem (base + 648);
    cs = mem (base + 656);
    rflags = mem (base + 664);
    rsp = mem (base + 672);
    ss = mem (base + 680);
  };
}

-- The four choices of the message on a page fault.
pub data Mode : Type 0 where
  user supervisor : Mode

pub data Access : Type 0 where
  instruction_fetch data_write data_read : Access

pub data Message : Type 0 where
  interrupt_info : InterrupInfo → Message
  exception : ℕ → Message
  break_point invalid_opcode double_fault general_protection_fault page_fault not_handled : Message
  bytes_at_rip : ℕ → Message
  bytes : List ℕ → Message
  cr2_is : ℕ → Message
  caused_by : Mode → Access → (present invalid : Bool) → Message

-- A bit of the error code is set.
abbrev pub has_bit : ℕ → ℕ → Bool
has_bit mask code = not (bit_and code mask == 0)

abbrev pub page_fault_mode : ℕ → Mode
page_fault_mode code = if has_bit 0b0000_0100 code then user else supervisor

abbrev pub page_fault_access : ℕ → Access
page_fault_access code =
    if has_bit 0b0001_0000 code
    then instruction_fetch
    else if has_bit 0b0010 code
    then data_write
    else data_read

-- `slice::from_raw_parts(rip, n)`, as the bytes are read.
abbrev pub slice_from : (ℕ → ℕ) → ℕ → ℕ → List ℕ
slice_from byte_at rip zero = []
slice_from byte_at rip (suc n) = byte_at rip ∷ slice_from byte_at (suc rip) n

-- The messages of the `match`, with the bytes of memory and the register `cr2` that it reads.
unfoldable pub explain : (ℕ → ℕ) → ℕ → InterrupInfo → ℕ → List Message
explain byte_at cr2 info index =
    if index == 3
    then break_point ∷ []
    else if index == 6
    then invalid_opcode ∷ []
    else if index == 8
    then double_fault ∷ []
    else if index == 13
    then general_protection_fault
      ∷ bytes_at_rip info.ctx.rip
      ∷ bytes (slice_from byte_at info.ctx.rip 16)
      ∷ []
    else if index == 14
    then page_fault
      ∷ cr2_is cr2
      ∷ caused_by (page_fault_mode info.error_code) (page_fault_access info.error_code)
          (has_bit 0b0001 info.error_code) (has_bit 0b1000 info.error_code)
      ∷ []
    else not_handled ∷ []

-- `inthandler`: the arm of the breakpoint returns, the others fall through to the panic.
unfoldable pub inthandler : (ℕ → ℕ) → ℕ → InterrupInfo → ℕ → List Message × Outcome (Unit {0})
inthandler byte_at cr2 info index = (
  interrupt_info info ∷ exception index ∷ explain byte_at cr2 info index,
  if index == 3 then ok tt else panic,
)

-- inthandler returns only for vector 3, for which it logs the saved state, the vector and the
-- breakpoint, and panics for every other vector.
pub inthandler_returns :
    (byte_at : ℕ → ℕ) (cr2 : ℕ) (info : InterrupInfo) (index : ℕ)
    → ((inthandler byte_at cr2 info index).1 ≡ ok tt → index ≡ 3)
      × (index ≡ 3
          → inthandler byte_at cr2 info index
            ≡ (interrupt_info info ∷ exception 3 ∷ break_point ∷ [], ok tt))
      × (index ≢ 3 → (inthandler byte_at cr2 info index).1 ≡ panic)
unfolding inthandler explain
inthandler_returns byte_at cr2 info index = (λ h. ground arith, λ h. rw h refl, λ h. ground arith)
