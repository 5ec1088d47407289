-- ===== src/X86/Cpu.antt =====
-- The part of the processor that the interrupt entry of wasabi/src/x86.rs uses: the general registers,
-- the stack pointer, the memory as words of 8 bytes by address, and the 64 words that `fxsave64`
-- stores.
use osdev_hikalium.Prelude.{
  ℕ, ◌+◌, ◌-◌, ◌*◌, ◌/◌, ◌%◌, ◌≡◌, refl, Bool, ◌&&◌, ltb, leb, ◌==◌, if◌then◌else◌, List, [], ◌∷◌,
  ◌++◌,
}

pub data Reg : Type 0 where
  rax rcx rdx rbx rbp rsi rdi r8 r9 r10 r11 r12 r13 r14 r15 : Reg

abbrev pub reg_number : Reg → ℕ
reg_number rax = 0
reg_number rcx = 1
reg_number rdx = 2
reg_number rbx = 3
reg_number rbp = 5
reg_number rsi = 6
reg_number rdi = 7
reg_number r8 = 8
reg_number r9 = 9
reg_number r10 = 10
reg_number r11 = 11
reg_number r12 = 12
reg_number r13 = 13
reg_number r14 = 14
reg_number r15 = 15

abbrev pub same_reg : Reg → Reg → Bool
same_reg r s = reg_number r == reg_number s

pub record Machine : Type 0 where
  pub regs : Reg → ℕ
  pub rsp : ℕ
  pub mem : ℕ → ℕ
  pub fpu : ℕ → ℕ

pub data Instr : Type 0 where
  push : Reg → Instr
  push_imm : ℕ → Instr
  pop : Reg → Instr
  mov_imm : Reg → ℕ → Instr
  mov : Reg → Reg → Instr
  mov_from_rsp : Reg → Instr
  mov_to_rsp : Reg → Instr
  sub_rsp add_rsp : ℕ → Instr
  and_rsp_minus_16 fxsave64 fxrstor64 call_inthandler : Instr

abbrev pub put : (Reg → ℕ) → Reg → ℕ → Reg → ℕ
put regs r v s = if same_reg r s then v else regs s

abbrev pub store : (ℕ → ℕ) → ℕ → ℕ → ℕ → ℕ
store mem a v b = if a == b then v else mem b

-- Whether a word lies in the area of 512 bytes that `fxsave64` fills from `base` on.
abbrev pub in_image : ℕ → ℕ → Bool
in_image base a = leb base a && ltb a (base + 512) && ((a - base) % 8 == 0)

-- One instruction. The call of `inthandler` is the parameter `handler`: its effect from the call to
-- the return.
unfoldable pub exec : (Machine → Machine) → Instr → Machine → Machine
exec handler (push r) m = record m { rsp = m.rsp - 8; mem = store m.mem (m.rsp - 8) (m.regs r) }
exec handler (push_imm n) m = record m { rsp = m.rsp - 8; mem = store m.mem (m.rsp - 8) n }
exec handler (pop r) m = record m { rsp = m.rsp + 8; regs = put m.regs r (m.mem m.rsp) }
exec handler (mov_imm r n) m = record m { regs = put m.regs r n }
exec handler (mov r s) m = record m { regs = put m.regs r (m.regs s) }
exec handler (mov_from_rsp r) m = record m { regs = put m.regs r m.rsp }
exec handler (mov_to_rsp r) m = record m { rsp = m.regs r }
exec handler (sub_rsp n) m = record m { rsp = m.rsp - n }
exec handler (add_rsp n) m = record m { rsp = m.rsp + n }
exec handler and_rsp_minus_16 m = record m { rsp = m.rsp - m.rsp % 16 }
exec handler fxsave64 m = record m {
  mem = λ a. if in_image m.rsp a then m.fpu ((a - m.rsp) / 8) else m.mem a;
}
exec handler fxrstor64 m = record m { fpu = λ i. m.mem (m.rsp + 8 * i) }
exec handler call_inthandler m = handler m

unfoldable pub run : (Machine → Machine) → List Instr → Machine → Machine
run handler [] m = m
run handler (i ∷ is) m = run handler is (exec handler i m)

pub run-append :
    (handler : Machine → Machine) (is js : List Instr) (m : Machine)
    → run handler (is ++ js) m ≡ run handler js (run handler is m)
unfolding run
run-append handler [] js m = refl
run-append handler (i ∷ is) js m = run-append handler is js (exec handler i m)
