-- ===== src/X86/View/ErrorCode.antt =====
-- What `inthandler` of wasabi/src/x86.rs finds in its parameters after an exception with an error code.
use osdev_hikalium.Prelude.{
  ℕ, ◌+◌, ◌-◌, ◌%◌, ◌≤◌, ◌<◌, ◌≡◌, refl, ap, ◌∙◌, false, true, [], ◌∷◌, ◌++◌, arith,
}
use osdev_hikalium.Prelude.Usize.{panic}
use osdev_hikalium.X86.Cpu.{
  Reg, same_reg, rcx, rsi, rdi, Machine, put, store, exec, run, run-append,
}
use osdev_hikalium.X86.Entry.{interrupt_entrypoint_with_ecode, save_registers, prepare_call}
use osdev_hikalium.X86.Resume.{at_call, run-prepare_call, saved}
use osdev_hikalium.X86.Handler.{
  info_at, inthandler, explain, interrupt_info, exception, page_fault, cr2_is, caused_by, user,
  data_write,
}
use osdev_hikalium.X86.View.{
  saved_register, pushed, pushed-rsp, word_above, register_word, fpu_word, run-push_regs,
}

-- The parameters at the call. The processor pushed the error code, which stands at the stack
-- pointer of the interrupted machine, below rip, cs and rflags.
pub record Misdescribes (index : ℕ) (m called : Machine) : Type 0 where
  pub second : called.regs rsi ≡ index
  pub aligned : called.rsp % 16 ≡ 0
  pub registers :
      (r : Reg)
      → same_reg rcx r ≡ false
      → saved_register (info_at called.mem (called.regs rdi)).greg r ≡ m.regs r
  pub rcx_is_index : (info_at called.mem (called.regs rdi)).greg.rcx ≡ index
  pub error_code_is_index : (info_at called.mem (called.regs rdi)).error_code ≡ index
  pub rip_is_rcx : (info_at called.mem (called.regs rdi)).ctx.rip ≡ m.regs rcx
  pub cs_is_error_code : (info_at called.mem (called.regs rdi)).ctx.cs ≡ m.mem m.rsp
  pub rflags_is_rip : (info_at called.mem (called.regs rdi)).ctx.rflags ≡ m.mem (m.rsp + 8)
  pub rsp_is_cs : (info_at called.mem (called.regs rdi)).ctx.rsp ≡ m.mem (m.rsp + 16)
  pub ss_is_rflags : (info_at called.mem (called.regs rdi)).ctx.ss ≡ m.mem (m.rsp + 24)
  pub fpu_seen : (i : ℕ) → i < 64 → (info_at called.mem (called.regs rdi)).fpu_context i ≡ m.fpu i
  pub page_fault_message :
      (byte_at : ℕ → ℕ) (cr2 : ℕ)
      → index ≡ 14
      → inthandler byte_at cr2 (info_at called.mem (called.regs rdi)) index ≡ (
        interrupt_info (info_at called.mem (called.regs rdi))
            ∷ exception 14
            ∷ page_fault
            ∷ cr2_is cr2
            ∷ caused_by user data_write false true
            ∷ [],
        panic,
      )

-- The stack after the entry, whose code pushes `rcx` three times.
abbrev entered_with_ecode : ℕ → Machine → Machine
entered_with_ecode index m = record m {
  regs = put (put m.regs rcx index) rcx index;
  rsp = m.rsp - 8 - 8 - 8;
  mem =
      store (store (store m.mem (m.rsp - 8) (m.regs rcx)) (m.rsp - 8 - 8) index) (m.rsp - 8 - 8 - 8)
        index;
}

module _ (handler : Machine → Machine) (index : ℕ) (m : Machine) (h : 664 ≤ m.rsp) where
  abbrev start : Machine
  start = entered_with_ecode index m

  low : 640 ≤ start.rsp
  low = omega arith

  pushed-Misdescribes : Misdescribes index m (at_call (pushed handler start low))
  unfolding info_at inthandler explain
  pushed-Misdescribes =
      let bottom = pushed-rsp handler start low in
      let code : (at_call (pushed handler start low)).mem
            ((pushed handler start low).rsp - 520 + 640)
          ≡ index =
        word_above handler start low _ (m.rsp - 16) (omega (arith, bottom)) (omega arith)
        ∙ ground arith in
      record {
        second = ap (λ regs. regs rcx) (run-push_regs handler saved start) ∙ refl;
        aligned = omega arith;
        registers = λ r other. register_word handler start low r other ∙ (rw other refl);
        rcx_is_index =
            word_above handler start low _ (m.rsp - 24) (omega (arith, bottom)) (omega arith)
            ∙ ground arith;
        error_code_is_index = code;
        rip_is_rcx =
            word_above handler start low _ (m.rsp - 8) (omega (arith, bottom)) (omega arith)
            ∙ ground arith;
        cs_is_error_code =
            word_above handler start low _ m.rsp (omega (arith, bottom)) (omega arith)
            ∙ ground arith;
        rflags_is_rip =
            word_above handler start low _ (m.rsp + 8) (omega (arith, bottom)) (omega arith)
            ∙ ground arith;
        rsp_is_cs =
            word_above handler start low _ (m.rsp + 16) (omega (arith, bottom)) (omega arith)
            ∙ ground arith;
        ss_is_rflags =
            word_above handler start low _ (m.rsp + 24) (omega (arith, bottom)) (omega arith)
            ∙ ground arith;
        fpu_seen = fpu_word handler start low;
        page_fault_message = λ byte_at cr2 e. rw (code, e) refl;
      }

-- For an entry with an error code, with 664 bytes of stack, inthandler is called with an aligned
-- stack, the vector in rsi and in rdi the address of an InterrupInfo that is shifted by two words:
-- its registers but rcx and its FPU words are those of the interrupted program, but rcx and the
-- error code are the vector, rip is the rcx of that program, cs the error code that the processor
-- pushed, and rflags, rsp and ss are its rip, cs and rflags. For a page fault the message is
-- therefore always that of the code 14, a write in user mode, and inthandler panics.
pub interrupt_entrypoint_with_ecode-Misdescribes :
    (handler : Machine → Machine) (index : ℕ) (m : Machine)
    → 664 ≤ m.rsp
    → Misdescribes index m
        (run handler (interrupt_entrypoint_with_ecode index ++ save_registers ++ prepare_call) m)
interrupt_entrypoint_with_ecode-Misdescribes handler index m h =
    rw
      (
        run-append handler (interrupt_entrypoint_with_ecode index ++ save_registers) prepare_call m,
        run-prepare_call handler,
        saves,
      )
      (pushed-Misdescribes handler index m h)
  where
    saves :
        run handler (interrupt_entrypoint_with_ecode index ++ save_registers) m
        ≡ pushed handler (entered_with_ecode index m) (omega arith)
    saves = unfold run exec in refl
