-- ===== src/X86/Paging/Leaf.antt =====
-- What a write to the tables of wasabi/src/x86.rs changes in the translation of addresses.
use osdev_hikalium.Prelude.{
  ℕ, zero, suc, ◌+◌, ◌*◌, ◌≤◌, ◌<◌, ◌≡◌, refl, ap, sym, ◌∙◌, inl, inr, Bool-cases, Option, none,
  some, arith,
}
use osdev_hikalium.X86.Paging.{Tables, is_present, next_level, calc_index, entry_at}
use osdev_hikalium.X86.Paging.Tree.{
  Places, IsTree, target, shift_at, high_bits, calc_index-lt, high_bits-step, next_level-present,
  next_level-absent, next_level-same, leaf,
}

pub leaf-some :
    (t : Tables) (l table next addr : ℕ)
    → next_level t table (calc_index (shift_at (suc l)) addr) ≡ some next
    → leaf t (suc l) table addr ≡ leaf t l next addr
unfolding leaf
leaf-some t l table next addr e = rw (leaf, e) refl

pub leaf-none :
    (t : Tables) (l table addr : ℕ)
    → next_level t table (calc_index (shift_at (suc l)) addr) ≡ none
    → leaf t (suc l) table addr ≡ 0
unfolding leaf
leaf-none t l table addr e = rw (leaf, e) refl

pub some_level_ne : (l p q : ℕ) (o : Option (ℕ × ℕ)) → o ≡ some (suc l, p) → ¬ (o ≡ some (0, q))
some_level_ne l p q o e f = ground (arith, sym e ∙ f)

module _ (boxes : ℕ → ℕ) (limit pml4 : ℕ) (places : Places) (t u : Tables)
    (tree : IsTree boxes limit pml4 places t) where
  -- Where no entry above the page tables changes, and the word of the page table does not either,
  -- the leaf stays.
  pub leaf-same :
      (l a p addr : ℕ)
      → l ≤ 3
      → ((b l p k : ℕ)
          → places b ≡ some (suc l, p)
          → k < 512
          → u.mem (entry_at b k) ≡ t.mem (entry_at b k))
      → ((b : ℕ)
          → places b ≡ some (0, high_bits 0 addr)
          → u.mem (entry_at b (calc_index 12 addr)) ≡ t.mem (entry_at b (calc_index 12 addr)))
      → places a ≡ some (l, p)
      → p ≡ high_bits l addr
      → leaf u l a addr ≡ leaf t l a addr
  unfolding leaf
  leaf-same zero a p addr h upper page e bits = page a (e ∙ ap (λ q. some (0, q)) bits)
  leaf-same (suc l) a p addr h upper page e bits =
      let k = calc_index (shift_at (suc l)) addr in
      let same = next_level-same t u a k (upper a l p k e (calc_index-lt _ addr)) in
      elim (Bool-cases (is_present (t.mem (entry_at a k)))) [
        | inl there ↦
            let next = next_level-present t a k (calc_index-lt _ addr) there in
            let at = tree.points a l p k e (calc_index-lt _ addr) there in
            let step : p * 512 + k ≡ high_bits l addr =
              (rw bits refl) ∙ high_bits-step l addr (omega arith) in
            leaf-some u l a _ addr (same ∙ next)
            ∙ leaf-same l (target (t.mem (entry_at a k))) (p * 512 + k) addr (omega arith) upper
                page at step
            ∙ sym (leaf-some t l a _ addr next)
        | inr absent ↦
            let gone = next_level-absent t a k absent in
            leaf-none u l a addr (same ∙ gone) ∙ sym (leaf-none t l a addr gone)
      ]
