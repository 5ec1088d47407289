-- ===== src/X86/Tss.antt =====
-- The task state segment of wasabi/src/x86.rs and the interrupt stacks that it points at. Each stack
-- is a `Box`, whose address the heap chooses: the addresses are a parameter, in the order in which
-- `TaskStateSegment64::new` asks for them.
use native.Mathlib.Numerals.{unary_clauses}
use mathlib.Core.Option.{some-injective}
use osdev_hikalium.Prelude.{
  ℕ, zero, suc, ◌+◌, ◌*◌, ◌≤◌, ◌<◌, ◌≡◌, refl, ◌≢◌, ◌⊎◌, inl, inr, sym, ap, Bool-cases, ltb, ltb→lt,
  ◌∙◌, Option, List, [], ◌∷◌, replicate, get_elem?, some, arith,
}

pub record TaskStateSegment64Inner : Type 0 where
  pub reserved0 : ℕ
  pub rsp : List ℕ
  pub ist : List ℕ
  pub reserved1 : List ℕ
  pub io_map_base_addr : ℕ

abbrev pub handler_stack_size : ℕ
handler_stack_size = 64 * 1024

-- `alloc_interrupt_stack`, with the address of the box.
abbrev pub alloc_interrupt_stack : ℕ → ℕ
alloc_interrupt_stack stack = stack + handler_stack_size

-- The rounds of the loop over `ist[1..=7]`: round i takes the box of number i.
abbrev pub interrupt_stacks : (ℕ → ℕ) → ℕ → ℕ → List ℕ
interrupt_stacks boxes i zero = []
interrupt_stacks boxes i (suc n) =
    alloc_interrupt_stack (boxes i) ∷ interrupt_stacks boxes (suc i) n

-- `TaskStateSegment64::new`: box 0 serves `rsp0`.
unfoldable pub new : (ℕ → ℕ) → TaskStateSegment64Inner
new boxes =
    let rsp0 = alloc_interrupt_stack (boxes 0) in
    record {
      reserved0 = 0;
      rsp = rsp0 ∷ 0 ∷ 0 ∷ [];
      ist = 0 ∷ interrupt_stacks boxes 1 7;
      reserved1 = replicate 5 0;
      io_map_base_addr = 0;
    }

-- The boxes do not overlap, as the heap promises of areas in use at the same time.
abbrev pub AreApart : (ℕ → ℕ) → Type 0
AreApart boxes =
    (i j : ℕ)
    → i < j
    → j < 8
    → (boxes i + handler_stack_size ≤ boxes j) ⊎ (boxes j + handler_stack_size ≤ boxes i)

-- Stack n of the segment: 0 for `rsp0`, and otherwise that of the interrupt stack table.
abbrev pub stack_top : TaskStateSegment64Inner → ℕ → Option ℕ
stack_top tss zero = get_elem? tss.rsp 0
stack_top tss (suc n) = get_elem? tss.ist (suc n)

-- A stack of 64 KiB that ends at `top`, and no other stack of the segment reaches into it.
pub record HasStack (boxes : ℕ → ℕ) (tss : TaskStateSegment64Inner) (n : ℕ) : Type 0 where
  pub top : ℕ
  pub found : stack_top tss n ≡ some top
  pub below : boxes n + handler_stack_size ≡ top
  pub apart :
      (k other : ℕ)
      → k < 8
      → n ≢ k
      → stack_top tss k ≡ some other
      → (top + handler_stack_size ≤ other) ⊎ (other + handler_stack_size ≤ top)

get_elem?-interrupt_stacks :
    (boxes : ℕ → ℕ) (i n k : ℕ)
    → k < n
    → get_elem? (interrupt_stacks boxes i n) k ≡ some (alloc_interrupt_stack (boxes (i + k)))
get_elem?-interrupt_stacks boxes i zero k h = absurd (omega arith)
get_elem?-interrupt_stacks boxes i (suc n) zero h = simp unary_clauses refl
get_elem?-interrupt_stacks boxes i (suc n) (suc k) h =
    get_elem?-interrupt_stacks boxes (suc i) n k (omega arith)
    ∙ ap (λ j. some (alloc_interrupt_stack (boxes j))) (omega arith)

stack_top-new :
    (boxes : ℕ → ℕ) (n : ℕ) → n < 8 → stack_top (new boxes) n ≡ some (boxes n + handler_stack_size)
unfolding new
stack_top-new boxes zero h = refl
stack_top-new boxes (suc n) h =
    get_elem?-interrupt_stacks boxes 1 7 n (omega arith)
    ∙ ap (λ j. some (alloc_interrupt_stack (boxes j))) (omega arith)

-- When the boxes of the stacks do not overlap, each of the eight stacks, rsp0 and entries 1 to 7
-- of the interrupt stack table, ends at the end of its own 64 KiB box and shares no byte with
-- another.
pub new-HasStack : (boxes : ℕ → ℕ) (n : ℕ) → AreApart boxes → n < 8 → HasStack boxes (new boxes) n
new-HasStack boxes n apart h = record {
  top = _;
  found = stack_top-new boxes n h;
  below = refl;
  apart = λ k other k_lt ne at.
      let top_of_k = some-injective _ _ (sym at ∙ stack_top-new boxes k k_lt) in
      elim (Bool-cases (ltb n k)) [
        | inl lt ↦ let case = apart n k (ltb→lt n k lt) k_lt in ground (arith, case, top_of_k)
        | inr ge ↦ let case = apart k n (ground (arith, ne, ge)) h in ground (arith, case, top_of_k)
      ];
}
