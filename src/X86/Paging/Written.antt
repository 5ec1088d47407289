-- ===== src/X86/Paging/Written.antt =====
-- What a write to an entry of a page table of wasabi/src/x86.rs changes.
use osdev_hikalium.Prelude.{
  ℕ, zero, suc, ◌+◌, ◌*◌, ◌/◌, ◌^◌, ◌≤◌, ◌<◌, ◌≡◌, refl, ap, sym, ◌∙◌, false, ◌==◌, some, arith,
}
use osdev_hikalium.Prelude.Bits.{bit_and_low}
use osdev_hikalium.X86.Paging.{Tables, calc_index, entry_at, write_entry}
use osdev_hikalium.X86.Paging.Tree.{
  Places, IsTree, shift_at, high_bits, calc_index-lt, entries_apart, leaf,
}
use osdev_hikalium.X86.Paging.Leaf.{leaf-same}

-- Addresses of one page have the same indices.
pub index-page :
    (l addr other : ℕ)
    → l ≤ 3
    → addr / 4096 ≡ other / 4096
    → calc_index (shift_at l) addr ≡ calc_index (shift_at l) other
index-page zero addr other h e =
    omega (arith, bit_and_low 9 (addr / 2 ^ 12), bit_and_low 9 (other / 2 ^ 12))
index-page (suc zero) addr other h e =
    omega (arith, bit_and_low 9 (addr / 2 ^ 21), bit_and_low 9 (other / 2 ^ 21))
index-page (suc (suc zero)) addr other h e =
    omega (arith, bit_and_low 9 (addr / 2 ^ 30), bit_and_low 9 (other / 2 ^ 30))
index-page (suc (suc (suc zero))) addr other h e =
    omega (arith, bit_and_low 9 (addr / 2 ^ 39), bit_and_low 9 (other / 2 ^ 39))
index-page (suc (suc (suc (suc l)))) addr other h e = absurd (omega arith)

-- The indices of an address make up its bits.
pub bits_of_indices :
    (addr : ℕ)
    → addr < 2 ^ 48
    → ((0 * 512 + calc_index 39 addr) * 512 + calc_index 30 addr) * 512 + calc_index 21 addr
      ≡ addr / 2 ^ 21
bits_of_indices addr h = omega (
  arith,
  bit_and_low 9 (addr / 2 ^ 39),
  bit_and_low 9 (addr / 2 ^ 30),
  bit_and_low 9 (addr / 2 ^ 21),
)

-- An address is known by its bits above a page table and its index there.
page_of_indices :
    (addr other : ℕ)
    → addr / 2 ^ 21 ≡ other / 2 ^ 21
    → calc_index 12 addr ≡ calc_index 12 other
    → addr / 4096 ≡ other / 4096
page_of_indices addr other e h =
    omega (arith, bit_and_low 9 (addr / 2 ^ 12), bit_and_low 9 (other / 2 ^ 12))

module _ (boxes : ℕ → ℕ) (limit pml4 : ℕ) where
  -- A write to entry k of a page table.
  module _ (places : Places) (t : Tables) (x q k v : ℕ)
      (tree : IsTree boxes limit pml4 places t) where
    abbrev written : Tables
    written = write_entry t (entry_at x k) v

    written-other :
        (b l p j : ℕ)
        → places x ≡ some (0, q)
        → k < 512
        → places b ≡ some (l, p)
        → j < 512
        → ¬ ((x ≡ b) × (k ≡ j))
        → written.mem (entry_at b j) ≡ t.mem (entry_at b j)
    written-other b l p j page hk e hj ne =
        let apart : ¬ (entry_at x k ≡ entry_at b j) = λ h.
          ne (entries_apart x b k j (tree.aligned x 0 q page) (tree.aligned b l p e) hk hj h) in
        let other : (entry_at x k == entry_at b j) ≡ false = ground (arith, apart) in rw other refl

    levels_apart : (b l p : ℕ) → places x ≡ some (0, q) → places b ≡ some (suc l, p) → ¬ (x ≡ b)
    levels_apart b l p page e h = ground (arith, sym page ∙ ap places h ∙ e)

    pub written-upper :
        (b l p j : ℕ)
        → places x ≡ some (0, q)
        → k < 512
        → places b ≡ some (suc l, p)
        → j < 512
        → written.mem (entry_at b j) ≡ t.mem (entry_at b j)
    written-upper b l p j page hk e hj =
        written-other b (suc l) p j page hk e hj (λ h. levels_apart b l p page e h.0)

    pub written-IsTree : places x ≡ some (0, q) → k < 512 → IsTree boxes limit pml4 places written
    written-IsTree page hk = record {
      root = tree.root;
      aligned = tree.aligned;
      fresh = tree.fresh;
      points = λ a l p j e hj there.
          let same = written-upper a l p j page hk e hj in
          rw same (tree.points a l p j e hj (rw same at there));
    }

    -- Addresses of other pages keep their leaf.
    pub leaf-written :
        (addr other : ℕ)
        → places x ≡ some (0, q)
        → q ≡ addr / 2 ^ 21
        → k ≡ calc_index 12 addr
        → other < 2 ^ 48
        → ¬ (other / 4096 ≡ addr / 4096)
        → leaf written 3 pml4 other ≡ leaf t 3 pml4 other
    leaf-written addr other page hq hk small ne =
        let lt : k < 512 = rw hk (calc_index-lt 12 addr) in
        leaf-same boxes limit pml4 places t written tree 3 pml4 0 other (omega arith)
          (λ b l p j e hj. written-upper b l p j page lt e hj)
          (λ b e.
            written-other b 0 (high_bits 0 other) (calc_index 12 other) page lt e
              (calc_index-lt 12 other)
              (λ h. ne (page_of_indices other addr (same_bits b other e h.0 ∙ hq) (sym h.1 ∙ hk))))
          tree.root (omega arith)
      where
        same_bits :
            (b other : ℕ) → places b ≡ some (0, high_bits 0 other) → x ≡ b → high_bits 0 other ≡ q
        same_bits b other e h = let both = sym (ap places h ∙ e) ∙ page in ground (arith, both)
