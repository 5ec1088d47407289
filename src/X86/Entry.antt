-- ===== src/X86/Entry.antt =====
-- The entry points of the interrupts in wasabi/src/x86.rs: the two macros and `inthandler_common`, up to
-- the `iretq` that ends it.
use osdev_hikalium.Prelude.{ℕ, ◌+◌, List, [], ◌∷◌, ◌++◌}
use osdev_hikalium.X86.Cpu.{
  Instr, push, push_imm, pop, mov_imm, mov, mov_from_rsp, mov_to_rsp, sub_rsp, add_rsp,
  and_rsp_minus_16, fxsave64, fxrstor64, call_inthandler, rax, rcx, rdx, rbx, rbp, rsi, rdi, r8, r9,
  r10, r11, r12, r13, r14, r15,
}

-- `interrupt_entrypoint`.
abbrev pub interrupt_entrypoint : ℕ → List Instr
interrupt_entrypoint index = push_imm 0 ∷ push rcx ∷ mov_imm rcx index ∷ []

-- `interrupt_entrypoint_with_ecode`.
abbrev pub interrupt_entrypoint_with_ecode : ℕ → List Instr
interrupt_entrypoint_with_ecode index =
    push rcx ∷ mov_imm rcx index ∷ push rcx ∷ push rcx ∷ mov_imm rcx index ∷ []

abbrev pub save_registers : List Instr
save_registers =
    push r15
    ∷ push r14
    ∷ push r13
    ∷ push r12
    ∷ push r11
    ∷ push r10
    ∷ push r9
    ∷ push r8
    ∷ push rdi
    ∷ push rsi
    ∷ push rbp
    ∷ push rbx
    ∷ push rdx
    ∷ push rax
    ∷ []

abbrev pub prepare_call : List Instr
prepare_call =
    sub_rsp (512 + 8)
    ∷ fxsave64
    ∷ mov_from_rsp rdi
    ∷ mov_from_rsp rbp
    ∷ and_rsp_minus_16
    ∷ mov rsi rcx
    ∷ []

abbrev pub finish_call : List Instr
finish_call = mov_to_rsp rbp ∷ fxrstor64 ∷ add_rsp (512 + 8) ∷ []

abbrev pub restore_registers : List Instr
restore_registers =
    pop rax
    ∷ pop rdx
    ∷ pop rbx
    ∷ pop rbp
    ∷ pop rsi
    ∷ pop rdi
    ∷ pop r8
    ∷ pop r9
    ∷ pop r10
    ∷ pop r11
    ∷ pop r12
    ∷ pop r13
    ∷ pop r14
    ∷ pop r15
    ∷ []

abbrev pub inthandler_common : List Instr
inthandler_common =
    save_registers
    ++ prepare_call
    ++ (call_inthandler ∷ [])
    ++ finish_call
    ++ restore_registers
    ++ (pop rcx ∷ add_rsp 8 ∷ [])
