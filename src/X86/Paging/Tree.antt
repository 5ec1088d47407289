-- ===== src/X86/Paging/Tree.antt =====
-- The tables of wasabi/src/x86.rs as a tree: a table has a place, its level above the page tables and the
-- high bits of the addresses that it serves.
use osdev_hikalium.Prelude.{
  ℕ, zero, suc, ◌+◌, ◌*◌, ◌/◌, ◌%◌, ◌^◌, ◌≤◌, ◌<◌, ◌≡◌, refl, inl, inr, Bool-cases, true, false,
  bit_and, ltb, Option, none, some, arith,
}
use osdev_hikalium.Prelude.Bits.{bit_and_low}
use osdev_hikalium.Prelude.Usize.{not_word}
use osdev_hikalium.X86.Paging.{Tables, is_present, next_level, calc_index, entry_at, attr_mask}

-- The places of the tables, by address.
abbrev pub Places : Type 0
Places = ℕ → Option (ℕ × ℕ)

-- The table that an entry points to.
abbrev pub target : ℕ → ℕ
target value = bit_and value (not_word attr_mask)

abbrev pub shift_at : ℕ → ℕ
shift_at l = 12 + 9 * l

-- The bits of an address above a table of level l.
abbrev pub high_bits : ℕ → ℕ → ℕ
high_bits l addr = addr / 2 ^ (21 + 9 * l)

pub calc_index-lt : (shift addr : ℕ) → calc_index shift addr < 512
calc_index-lt shift addr = omega (arith, bit_and_low 9 (addr / 2 ^ shift))

-- An index continues the bits of the table above.
pub high_bits-step :
    (l addr : ℕ)
    → l < 3
    → high_bits (suc l) addr * 512 + calc_index (shift_at (suc l)) addr ≡ high_bits l addr
high_bits-step zero addr h = omega (arith, bit_and_low 9 (addr / 2 ^ 21))
high_bits-step (suc zero) addr h = omega (arith, bit_and_low 9 (addr / 2 ^ 30))
high_bits-step (suc (suc zero)) addr h = omega (arith, bit_and_low 9 (addr / 2 ^ 39))
high_bits-step (suc (suc (suc l))) addr h = absurd (omega arith)

pub next_level-present :
    (t : Tables) (table index : ℕ)
    → index < 512
    → is_present (t.mem (entry_at table index)) ≡ true
    → next_level t table index ≡ some (target (t.mem (entry_at table index)))
unfolding next_level
next_level-present t table index h e =
    let test : ltb index 512 ≡ true = ground (arith, h) in rw (test, e) refl

pub next_level-absent :
    (t : Tables) (table index : ℕ)
    → is_present (t.mem (entry_at table index)) ≡ false
    → next_level t table index ≡ none
unfolding next_level
next_level-absent t table index e = elim (Bool-cases (ltb index 512)) [
  | inl h ↦ rw (h, e) refl
  | inr h ↦ rw h refl
]

pub next_level-same :
    (t u : Tables) (table index : ℕ)
    → u.mem (entry_at table index) ≡ t.mem (entry_at table index)
    → next_level u table index ≡ next_level t table index
unfolding next_level
next_level-same t u table index e = rw e refl

-- Entries of aligned tables are different words.
pub entries_apart :
    (a b i j : ℕ)
    → a % 4096 ≡ 0
    → b % 4096 ≡ 0
    → i < 512
    → j < 512
    → entry_at a i ≡ entry_at b j
    → (a ≡ b) × (i ≡ j)
entries_apart a b i j ha hb hi hj e = omega arith

-- The entry that an address uses in a table, or 0 where a level is missing.
unfoldable pub leaf : Tables → ℕ → ℕ → ℕ → ℕ
leaf t zero table addr = t.mem (entry_at table (calc_index 12 addr))
leaf t (suc l) table addr = elim (next_level t table (calc_index (shift_at (suc l)) addr)) [
  | none ↦ 0
  | some next ↦ leaf t l next addr
]

module _ (boxes : ℕ → ℕ) (limit : ℕ) where
  -- Box `limit` and those after it are never used.
  pub record IsTree (pml4 : ℕ) (places : Places) (t : Tables) : Type 0 where
    pub root : places pml4 ≡ some (3, 0)
    pub aligned : (a l p : ℕ) → places a ≡ some (l, p) → a % 4096 ≡ 0
    pub fresh : (i : ℕ) → t.boxed ≤ i → i < limit → places (boxes i) ≡ none
    pub points :
        (a l p k : ℕ)
        → places a ≡ some (suc l, p)
        → k < 512
        → is_present (t.mem (entry_at a k)) ≡ true
        → places (target (t.mem (entry_at a k))) ≡ some (l, p * 512 + k)
