-- ===== src/X86/View.antt =====
-- What `inthandler` of wasabi/src/x86.rs finds in its parameters when an interrupt calls it.
pub mod ErrorCode
use mathlib.Core.Option.{some-injective}
use osdev_hikalium.Prelude.{
  ℕ, zero, suc, ◌+◌, ◌-◌, ◌*◌, ◌%◌, ◌≤◌, ◌<◌, ◌≡◌, refl, ap, ◌∙◌, List, [], ◌∷◌, ◌++◌, map, length,
  get_elem?, some, arith, Bool, true, false,
}
use osdev_hikalium.X86.Cpu.{
  Reg, rax, rcx, rdx, rbx, rbp, rsi, rdi, r8, r9, r10, r11, r12, r13, r14, r15, Machine, push,
  same_reg, store, exec, run, run-append,
}
use osdev_hikalium.X86.Entry.{interrupt_entrypoint, save_registers, prepare_call}
use osdev_hikalium.X86.Resume.{
  at_call, entered, run-prepare_call, saved, in_image-above, in_image-word, image_index,
}
use osdev_hikalium.X86.Nest.{same_reg→≡}
use osdev_hikalium.X86.Handler.{GeneralRegisterContext, info_at}

run-push_rsp :
    (handler : Machine → Machine) (rs : List Reg) (m : Machine)
    → (run handler (map push rs) m).rsp ≡ m.rsp - 8 * length rs
unfolding run exec
run-push_rsp handler [] m = omega arith
run-push_rsp handler (r ∷ rs) m = omega (arith, run-push_rsp handler rs _)

run-push_regs :
    (handler : Machine → Machine) (rs : List Reg) (m : Machine)
    → (run handler (map push rs) m).regs ≡ m.regs
unfolding run exec
run-push_regs handler [] m = refl
run-push_regs handler (r ∷ rs) m = run-push_regs handler rs _

run-push_fpu :
    (handler : Machine → Machine) (rs : List Reg) (m : Machine)
    → (run handler (map push rs) m).fpu ≡ m.fpu
unfolding run exec
run-push_fpu handler [] m = refl
run-push_fpu handler (r ∷ rs) m = run-push_fpu handler rs _

run-push_old :
    (handler : Machine → Machine) (rs : List Reg) (m : Machine) (a : ℕ)
    → 8 * length rs ≤ m.rsp
    → m.rsp ≤ a
    → (run handler (map push rs) m).mem a ≡ m.mem a
unfolding run exec
run-push_old handler [] m a h le = refl
run-push_old handler (r ∷ rs) m a h le =
    run-push_old handler rs (exec handler (push r) m) a (omega arith) (omega arith) ∙ ground arith

run-push_mem :
    (handler : Machine → Machine) (rs : List Reg) (m : Machine) (i : ℕ) (r : Reg)
    → 8 * length rs ≤ m.rsp
    → get_elem? rs i ≡ some r
    → (run handler (map push rs) m).mem (m.rsp - 8 * suc i) ≡ m.regs r
unfolding run exec
run-push_mem handler [] m i r h e = absurd (ground (arith, e))
run-push_mem handler (s ∷ rs) m zero r h e =
    run-push_old handler rs (exec handler (push s) m) (m.rsp - 8) (omega arith) (omega arith)
    ∙ (let self : store m.mem (m.rsp - 8) (m.regs s) (m.rsp - 8) ≡ m.regs s = ground arith in
        self ∙ ap m.regs (some-injective _ _ e))
run-push_mem handler (s ∷ rs) m (suc i) r h e =
    let a : m.rsp - 8 * suc (suc i) ≡ m.rsp - 8 - 8 * suc i = omega arith in
    rw a (run-push_mem handler rs (exec handler (push s) m) i r (omega arith) e)

-- A saved register by its name.
abbrev pub saved_register : GeneralRegisterContext → Reg → ℕ
saved_register g rax = g.rax
saved_register g rdx = g.rdx
saved_register g rbx = g.rbx
saved_register g rbp = g.rbp
saved_register g rsi = g.rsi
saved_register g rdi = g.rdi
saved_register g r8 = g.r8
saved_register g r9 = g.r9
saved_register g r10 = g.r10
saved_register g r11 = g.r11
saved_register g r12 = g.r12
saved_register g r13 = g.r13
saved_register g r14 = g.r14
saved_register g r15 = g.r15
saved_register g rcx = g.rcx

-- The parameters of `inthandler` at the call, and the interrupted machine that they describe: what
-- the processor pushed stands at the stack pointer of that machine.
pub record Describes (index : ℕ) (m called : Machine) : Type 0 where
  pub second : called.regs rsi ≡ index
  pub aligned : called.rsp % 16 ≡ 0
  pub registers :
      (r : Reg) → saved_register (info_at called.mem (called.regs rdi)).greg r ≡ m.regs r
  pub no_error_code : (info_at called.mem (called.regs rdi)).error_code ≡ 0
  pub rip_seen : (info_at called.mem (called.regs rdi)).ctx.rip ≡ m.mem m.rsp
  pub cs_seen : (info_at called.mem (called.regs rdi)).ctx.cs ≡ m.mem (m.rsp + 8)
  pub rflags_seen : (info_at called.mem (called.regs rdi)).ctx.rflags ≡ m.mem (m.rsp + 16)
  pub rsp_seen : (info_at called.mem (called.regs rdi)).ctx.rsp ≡ m.mem (m.rsp + 24)
  pub ss_seen : (info_at called.mem (called.regs rdi)).ctx.ss ≡ m.mem (m.rsp + 32)
  pub fpu_seen : (i : ℕ) → i < 64 → (info_at called.mem (called.regs rdi)).fpu_context i ≡ m.fpu i

-- The structure that the common code builds below the words that an entry pushed, and the
-- machine at the call.
module _ (handler : Machine → Machine) (e : Machine) (h : 640 ≤ e.rsp) where
  -- The machine after the registers are pushed.
  abbrev pushed : Machine
  pushed = run handler (map push saved) e

  pushed-rsp : pushed.rsp + 112 ≡ e.rsp
  pushed-rsp = let at = run-push_rsp handler saved e in omega (arith, at)

  word_saved :
      (a i : ℕ) (r : Reg)
      → get_elem? saved i ≡ some r
      → i < 14
      → pushed.rsp + 104 ≡ a + 8 * i
      → (at_call pushed).mem a ≡ e.regs r
  word_saved a i r listed lt at =
      let there : a ≡ e.rsp - 8 * suc i = omega (arith, pushed-rsp) in
      let above = in_image-above (pushed.rsp - 520) a (omega (arith, pushed-rsp)) in
      rw (above, there) (run-push_mem handler saved e i r (omega arith) listed)

  -- The words that lay on the stack before.
  word_above : (a q : ℕ) → a ≡ q → e.rsp ≤ q → (at_call pushed).mem a ≡ e.mem q
  word_above a q same le =
      let above = in_image-above (pushed.rsp - 520) q (omega (arith, pushed-rsp)) in
      rw (same, above) (run-push_old handler saved e q (omega arith) (omega arith))

  register_word :
      (r : Reg)
      → same_reg rcx r ≡ false
      → saved_register (info_at (at_call pushed).mem (pushed.rsp - 520)).greg r ≡ e.regs r
  unfolding info_at
  register_word rax other = word_saved _ 13 rax refl (omega arith) (omega (arith, pushed-rsp))
  register_word rdx other = word_saved _ 12 rdx refl (omega arith) (omega (arith, pushed-rsp))
  register_word rbx other = word_saved _ 11 rbx refl (omega arith) (omega (arith, pushed-rsp))
  register_word rbp other = word_saved _ 10 rbp refl (omega arith) (omega (arith, pushed-rsp))
  register_word rsi other = word_saved _ 9 rsi refl (omega arith) (omega (arith, pushed-rsp))
  register_word rdi other = word_saved _ 8 rdi refl (omega arith) (omega (arith, pushed-rsp))
  register_word r8 other = word_saved _ 7 r8 refl (omega arith) (omega (arith, pushed-rsp))
  register_word r9 other = word_saved _ 6 r9 refl (omega arith) (omega (arith, pushed-rsp))
  register_word r10 other = word_saved _ 5 r10 refl (omega arith) (omega (arith, pushed-rsp))
  register_word r11 other = word_saved _ 4 r11 refl (omega arith) (omega (arith, pushed-rsp))
  register_word r12 other = word_saved _ 3 r12 refl (omega arith) (omega (arith, pushed-rsp))
  register_word r13 other = word_saved _ 2 r13 refl (omega arith) (omega (arith, pushed-rsp))
  register_word r14 other = word_saved _ 1 r14 refl (omega arith) (omega (arith, pushed-rsp))
  register_word r15 other = word_saved _ 0 r15 refl (omega arith) (omega (arith, pushed-rsp))
  register_word rcx other = absurd (ground (arith, other))

  fpu_word : (i : ℕ) → i < 64 → (at_call pushed).mem (pushed.rsp - 520 + 8 * i) ≡ e.fpu i
  fpu_word i lt =
      rw
        (
          in_image-word (pushed.rsp - 520) i lt,
          image_index (pushed.rsp - 520) i,
          run-push_fpu handler saved e,
        )
        refl

module _ (handler : Machine → Machine) (index : ℕ) (m : Machine) (h : 656 ≤ m.rsp) where
  abbrev start : Machine
  start = entered index m

  low : 640 ≤ start.rsp
  low = omega arith

  entered_regs : (r : Reg) → same_reg rcx r ≡ false → start.regs r ≡ m.regs r
  entered_regs r other = rw other refl

  register_seen :
      (r : Reg) (same : Bool)
      → same_reg rcx r ≡ same
      → saved_register
          (info_at
            (at_call (pushed handler start low)).mem
            ((pushed handler start low).rsp - 520)).greg
          r
        ≡ m.regs r
  unfolding info_at
  register_seen r false other = register_word handler start low r other ∙ entered_regs r other
  register_seen r true same = rw (← (same_reg→≡ rcx r same)) (
      word_above handler start low _ (m.rsp - 16) (omega (arith, pushed-rsp handler start low))
        (omega arith)
      ∙ ground arith)

  -- Words of the frame.
  frame_word :
      (k : ℕ)
      → (at_call (pushed handler start low)).mem ((pushed handler start low).rsp - 520 + (648 + k))
        ≡ m.mem (m.rsp + k)
  frame_word k =
      word_above handler start low _ (m.rsp + k) (omega (arith, pushed-rsp handler start low))
        (omega arith)
      ∙ ground arith

  pushed-Describes : Describes index m (at_call (pushed handler start low))
  unfolding info_at
  pushed-Describes = record {
    second = ap (λ regs. regs rcx) (run-push_regs handler saved start);
    aligned = omega arith;
    registers = λ r. register_seen r (same_reg rcx r) refl;
    no_error_code =
        word_above handler start low _ (m.rsp - 8) (omega (arith, pushed-rsp handler start low))
          (omega arith)
        ∙ ground arith;
    rip_seen = frame_word 0 ∙ ap m.mem (omega arith);
    cs_seen = frame_word 8;
    rflags_seen = frame_word 16;
    rsp_seen = frame_word 24;
    ss_seen = frame_word 32;
    fpu_seen = fpu_word handler start low;
  }

-- For an entry without an error code, with 656 bytes of stack, inthandler is called with an
-- aligned stack, the vector in rsi and in rdi the address of an InterrupInfo whose registers,
-- error code 0, frame and FPU words are those of the interrupted program.
pub interrupt_entrypoint-Describes :
    (handler : Machine → Machine) (index : ℕ) (m : Machine)
    → 656 ≤ m.rsp
    → Describes index m
        (run handler (interrupt_entrypoint index ++ save_registers ++ prepare_call) m)
interrupt_entrypoint-Describes handler index m h =
    rw
      (
        run-append handler (interrupt_entrypoint index ++ save_registers) prepare_call m,
        run-prepare_call handler,
        saves,
      )
      (pushed-Describes handler index m h)
  where
    saves :
        run handler (interrupt_entrypoint index ++ save_registers) m
        ≡ pushed handler (entered index m) (omega arith)
    saves = unfold run exec in refl
