-- ===== src/X86/Resume.antt =====
-- What an interrupt does to the program that it interrupts, in wasabi/src/x86.rs: the entry code up to
-- `iretq`.
use osdev_hikalium.Prelude.{
  ℕ, ◌+◌, ◌-◌, ◌*◌, ◌/◌, ◌%◌, ◌≤◌, ◌<◌, ◌≡◌, refl, ◌∙◌, inl, inr, true, false, Bool-cases, List, [],
  ◌∷◌, ◌++◌, if◌then◌else◌, arith,
}
use osdev_hikalium.X86.Cpu.{
  Reg, same_reg, rax, rcx, rdx, rbx, rbp, rsi, rdi, r8, r9, r10, r11, r12, r13, r14, r15, Machine,
  Instr, pop, add_rsp, put, store, in_image, exec, run, run-append, call_inthandler,
}
use osdev_hikalium.X86.Entry.{interrupt_entrypoint, inthandler_common, prepare_call, finish_call}
use osdev_hikalium.X86.Nest.{Keeps, nest, nest-Keeps, among, same_reg→≡}

-- The System V calling convention at a call of a function that returns: `rbp` is as before, and the memory from the stack pointer on is the caller's.
pub record FollowsSysv64 (handler : Machine → Machine) : Type 0 where
  pub keeps_rbp : (m : Machine) → (handler m).regs rbp ≡ m.regs rbp
  pub keeps_mem : (m : Machine) (a : ℕ) → m.rsp ≤ a → (handler m).mem a ≡ m.mem a

abbrev call : List Instr
call = prepare_call ++ (call_inthandler ∷ []) ++ finish_call

abbrev pub saved : List Reg
saved = r15 ∷ r14 ∷ r13 ∷ r12 ∷ r11 ∷ r10 ∷ r9 ∷ r8 ∷ rdi ∷ rsi ∷ rbp ∷ rbx ∷ rdx ∷ rax ∷ []

pub in_image-word : (base i : ℕ) → i < 64 → in_image base (base + 8 * i) ≡ true
in_image-word base i h =
    let divides : (base + 8 * i - base) % 8 ≡ 0 = omega arith in
    let below : base + 8 * i < base + 512 = omega arith in ground (arith, divides, below)

pub image_index : (base i : ℕ) → (base + 8 * i - base) / 8 ≡ i
image_index base i = omega arith

pub in_image-above : (base a : ℕ) → base + 512 ≤ a → in_image base a ≡ false
in_image-above base a h = ground arith

-- The machine at the call, where the registers are saved.
abbrev pub at_call : Machine → Machine
at_call m =
    let base = m.rsp - 520 in
    record m {
      regs = put (put (put m.regs rdi base) rbp base) rsi (m.regs rcx);
      rsp = base - base % 16;
      mem = λ a. if in_image base a then m.fpu ((a - base) / 8) else m.mem a;
    }

pub run-prepare_call :
    (handler : Machine → Machine) (m : Machine) → run handler prepare_call m ≡ at_call m
unfolding run exec
run-prepare_call handler m = refl

-- The machine that the code after the call leaves.
abbrev after_call : Machine → Machine
after_call m = record m { rsp = m.regs rbp + 520; fpu = λ i. m.mem (m.regs rbp + 8 * i) }

run-call :
    (handler : Machine → Machine) (m : Machine)
    → run handler call m ≡ after_call (handler (at_call m))
unfolding run exec
run-call handler m = refl

module _ (handler : Machine → Machine) (sysv : FollowsSysv64 handler) where
  call-mem :
      (m : Machine) (a : ℕ) → m.rsp - 520 ≤ a → (handler (at_call m)).mem a ≡ (at_call m).mem a
  call-mem m a h = sysv.keeps_mem (at_call m) a (omega arith)

  call-Keeps : (m : Machine) → 520 ≤ m.rsp → Keeps [] m (run handler call m)
  call-Keeps m h = rw (run-call handler m) (record {
    same_rsp = omega (arith, sysv.keeps_rbp (at_call m));
    same_mem =
        λ a le. rw (call-mem m a (omega arith), in_image-above (m.rsp - 520) a (omega arith)) refl;
    same_regs = λ r impossible. absurd (ground (arith, impossible));
    same_fpu = λ i lt.
        rw
          (
            sysv.keeps_rbp (at_call m),
            call-mem m (m.rsp - 520 + 8 * i) (omega arith),
            in_image-word (m.rsp - 520) i lt,
            image_index (m.rsp - 520) i,
          )
          refl;
  })

  common-Keeps : (m : Machine) → 640 ≤ m.rsp → Keeps saved m (run handler (nest saved call) m)
  common-Keeps m h = nest-Keeps handler 520 call call-Keeps saved m (omega arith)

-- What holds right before `iretq`: the stack pointer is at the frame that the processor pushed, and
-- the memory from there on, every register and the FPU are as they were at the interrupt.
pub record Resumes (frame : ℕ) (m n : Machine) : Type 0 where
  pub at_frame : n.rsp ≡ frame
  pub frame_kept : (a : ℕ) → frame ≤ a → n.mem a ≡ m.mem a
  pub regs_kept : (r : Reg) → n.regs r ≡ m.regs r
  pub fpu_kept : (i : ℕ) → i < 64 → n.fpu i ≡ m.fpu i

abbrev pub entered : ℕ → Machine → Machine
entered index m = record m {
  regs = put m.regs rcx index;
  rsp = m.rsp - 8 - 8;
  mem = store (store m.mem (m.rsp - 8) 0) (m.rsp - 8 - 8) (m.regs rcx);
}

abbrev left : Machine → Machine
left m = record m { regs = put m.regs rcx (m.mem m.rsp); rsp = m.rsp + 8 + 8 }

entry-split :
    (handler : Machine → Machine) (index : ℕ) (m : Machine)
    → run handler (interrupt_entrypoint index ++ inthandler_common) m
      ≡ left (run handler (nest saved call) (entered index m))
entry-split handler index m =
    run-append handler (interrupt_entrypoint index ++ nest saved call) (pop rcx ∷ add_rsp 8 ∷ []) m
    ∙ unfold run exec in refl

every_reg : (r : Reg) → among (rcx ∷ saved) r ≡ true
every_reg rax = refl
every_reg rcx = refl
every_reg rdx = refl
every_reg rbx = refl
every_reg rbp = refl
every_reg rsi = refl
every_reg rdi = refl
every_reg r8 = refl
every_reg r9 = refl
every_reg r10 = refl
every_reg r11 = refl
every_reg r12 = refl
every_reg r13 = refl
every_reg r14 = refl
every_reg r15 = refl

left-regs :
    (index : ℕ) (m n : Machine)
    → 16 ≤ m.rsp
    → Keeps saved (entered index m) n
    → (r : Reg) → (left n).regs r ≡ m.regs r
left-regs index m n h k r = elim (Bool-cases (same_reg rcx r)) [
  | inl same ↦
      let popped = k.same_mem (m.rsp - 8 - 8) (omega arith) in
      rw (same, k.same_rsp, popped) (ground (arith, same_reg→≡ rcx r same))
  | inr other ↦
      let listed : among saved r ≡ true = rw other at (every_reg r) in
      rw other (k.same_regs r listed ∙ (rw other refl))
]

left-Resumes :
    (index : ℕ) (m n : Machine)
    → 16 ≤ m.rsp
    → Keeps saved (entered index m) n
    → Resumes m.rsp m (left n)
left-Resumes index m n h k = record {
  at_frame = omega (arith, k.same_rsp);
  frame_kept = λ a le. k.same_mem a (omega arith) ∙ ground arith;
  regs_kept = left-regs index m n h k;
  fpu_kept = k.same_fpu;
}

-- For an entry without an error code, with 656 bytes of stack and a handler that follows the
-- calling convention, the code up to iretq leaves the stack pointer at the frame that the
-- processor pushed, and that frame, the memory above it, every register and the FPU state as they
-- were.
pub interrupt_entrypoint-Resumes :
    (handler : Machine → Machine) (index : ℕ) (m : Machine)
    → FollowsSysv64 handler
    → 656 ≤ m.rsp
    → Resumes m.rsp m (run handler (interrupt_entrypoint index ++ inthandler_common) m)
interrupt_entrypoint-Resumes handler index m sysv h = rw (entry-split handler index m) (
    left-Resumes index m _ (omega arith)
      (common-Keeps handler sysv (entered index m) (omega arith)))
