-- ===== src/X86/Nest.antt =====
-- Code between a push and a pop of the same register: it keeps what the code inside keeps, and the
-- register too.
use osdev_hikalium.Prelude.{
  ℕ, ◌+◌, ◌-◌, ◌*◌, ◌≤◌, ◌<◌, ◌≡◌, refl, sym, ap, ◌∙◌, inl, inr, Bool, true, false, ◌||◌,
  Bool-cases, List, [], ◌∷◌, ◌++◌, length, if◌then◌else◌, ◌==◌, arith, ==→≡,
}
use osdev_hikalium.X86.Cpu.{
  Reg, rax, rcx, rdx, rbx, rbp, rsi, rdi, r8, r9, r10, r11, r12, r13, r14, r15, reg_number,
  same_reg, Machine, Instr, push, pop, store, exec, run, run-append,
}

-- Whether a register is listed.
abbrev pub among : List Reg → Reg → Bool
among [] r = false
among (s ∷ ss) r = same_reg s r || among ss r

-- From machine m to machine n: the stack pointer, the memory from the stack pointer on, the listed
-- registers and the state of the FPU are as they were.
pub record Keeps (saved : List Reg) (m n : Machine) : Type 0 where
  pub same_rsp : n.rsp ≡ m.rsp
  pub same_mem : (a : ℕ) → m.rsp ≤ a → n.mem a ≡ m.mem a
  pub same_regs : (r : Reg) → among saved r ≡ true → n.regs r ≡ m.regs r
  pub same_fpu : (i : ℕ) → i < 64 → n.fpu i ≡ m.fpu i

abbrev pub nest : List Reg → List Instr → List Instr
nest [] inside = inside
nest (r ∷ rs) inside = push r ∷ nest rs inside ++ (pop r ∷ [])

abbrev reg_of : ℕ → Reg
reg_of n =
    if n == 0
    then rax
    else if n == 1
    then rcx
    else if n == 2
    then rdx
    else if n == 3
    then rbx
    else if n == 5
    then rbp
    else if n == 6
    then rsi
    else if n == 7
    then rdi
    else if n == 8
    then r8
    else if n == 9
    then r9
    else if n == 10
    then r10
    else if n == 11
    then r11
    else if n == 12
    then r12
    else if n == 13
    then r13
    else if n == 14
    then r14
    else r15

reg_of-reg_number : (r : Reg) → reg_of (reg_number r) ≡ r
reg_of-reg_number rax = refl
reg_of-reg_number rcx = refl
reg_of-reg_number rdx = refl
reg_of-reg_number rbx = refl
reg_of-reg_number rbp = refl
reg_of-reg_number rsi = refl
reg_of-reg_number rdi = refl
reg_of-reg_number r8 = refl
reg_of-reg_number r9 = refl
reg_of-reg_number r10 = refl
reg_of-reg_number r11 = refl
reg_of-reg_number r12 = refl
reg_of-reg_number r13 = refl
reg_of-reg_number r14 = refl
reg_of-reg_number r15 = refl

pub same_reg→≡ : (r s : Reg) → same_reg r s ≡ true → r ≡ s
same_reg→≡ r s h =
    sym (reg_of-reg_number r)
    ∙ ap reg_of (==→≡ (reg_number r) (reg_number s) h)
    ∙ reg_of-reg_number s

run-push_pop :
    (handler : Machine → Machine) (r : Reg) (inside : List Instr) (m : Machine)
    → run handler (push r ∷ inside ++ (pop r ∷ [])) m
      ≡ exec handler (pop r) (run handler inside (exec handler (push r) m))
run-push_pop handler r inside m =
    run-append handler (push r ∷ inside) (pop r ∷ []) m ∙ unfold run in refl

module _ (handler : Machine → Machine) (rs : List Reg) (r : Reg) (m n : Machine) where
  bracket-regs :
      8 ≤ m.rsp
      → Keeps rs (exec handler (push r) m) n
      → (s : Reg) → among (r ∷ rs) s ≡ true
      → (exec handler (pop r) n).regs s ≡ m.regs s
  unfolding exec
  bracket-regs h k s listed = elim (Bool-cases (same_reg r s)) [
    | inl same ↦
        let popped = k.same_mem (m.rsp - 8) (omega arith) in
        rw (same, k.same_rsp, popped) (ground (arith, same_reg→≡ r s same))
    | inr other ↦ rw other (k.same_regs s (ground (arith, other)))
  ]

  bracket :
      8 ≤ m.rsp → Keeps rs (exec handler (push r) m) n → Keeps (r ∷ rs) m (exec handler (pop r) n)
  unfolding exec
  bracket h k = record {
    same_rsp = omega (arith, k.same_rsp);
    same_mem = λ a le.
        k.same_mem a (omega arith)
        ∙ (let old : store m.mem (m.rsp - 8) (m.regs r) a ≡ m.mem a = ground arith in old);
    same_regs = bracket-regs h k;
    same_fpu = k.same_fpu;
  }

-- The code inside, with `room` bytes of stack, keeps nothing but what it must.
pub nest-Keeps :
    (handler : Machine → Machine) (room : ℕ) (inside : List Instr)
    → ((m : Machine) → room ≤ m.rsp → Keeps [] m (run handler inside m))
    → (rs : List Reg) (m : Machine) → room + 8 * length rs ≤ m.rsp
    → Keeps rs m (run handler (nest rs inside) m)
nest-Keeps handler room inside keeps [] m h = keeps m (omega arith)
nest-Keeps handler room inside keeps (r ∷ rs) m h = rw (run-push_pop handler r (nest rs inside) m) (
    bracket handler rs r m _ (omega arith) (
      nest-Keeps handler room inside keeps rs (exec handler (push r) m)
        (unfold exec in omega arith)))
