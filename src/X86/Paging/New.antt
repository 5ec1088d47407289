-- ===== src/X86/Paging/New.antt =====
-- `PML4::new` of wasabi/src/x86.rs: a tree of one table, which maps nothing.
use osdev_hikalium.Prelude.{
  ℕ, suc, ◌+◌, ◌<◌, ◌≡◌, refl, ap, sym, ◌∙◌, inl, inr, Bool-cases, true, false, ltb, leb, ◌==◌,
  ==→≡, if◌then◌else◌, none, some, arith,
}
use osdev_hikalium.X86.Paging.{Tables, is_present, calc_index, entry_at, zeroed_box, page_size}
use osdev_hikalium.X86.Paging.Create.{AreAligned}
use osdev_hikalium.X86.Paging.Tree.{Places, IsTree, calc_index-lt, next_level-absent, leaf}
use osdev_hikalium.X86.Paging.Leaf.{leaf-none}
use osdev_hikalium.X86.Paging.Descend.{AreDistinct}

module _ (boxes : ℕ → ℕ) (limit : ℕ) (t : Tables) where
  abbrev pub only_root : Places
  only_root a = if boxes t.boxed == a then some (3, 0) else none

  zeroed_word : (j : ℕ) → j < 512 → (zeroed_box boxes t).mem (entry_at (boxes t.boxed) j) ≡ 0
  zeroed_word j h =
      let low : leb (boxes t.boxed) (entry_at (boxes t.boxed) j) ≡ true = ground arith in
      let high : ltb (entry_at (boxes t.boxed) j) (boxes t.boxed + page_size) ≡ true =
        ground (arith, h) in
      rw (low, high) refl

  is_root : (a l p : ℕ) → only_root a ≡ some (l, p) → boxes t.boxed ≡ a
  is_root a l p e = elim (Bool-cases (boxes t.boxed == a)) [
    | inl same ↦ ==→≡ _ _ same
    | inr other ↦ absurd (ground (arith, rw other at e))
  ]

  zeroed_absent :
      (j : ℕ) → j < 512 → is_present ((zeroed_box boxes t).mem (entry_at (boxes t.boxed) j)) ≡ false
  zeroed_absent j h = ap is_present (zeroed_word j h)

  pub zeroed_box-IsTree :
      AreAligned boxes
      → AreDistinct boxes limit
      → IsTree boxes limit (boxes t.boxed) only_root (zeroed_box boxes t)
  zeroed_box-IsTree aligned distinct = record {
    root = let self : (boxes t.boxed == boxes t.boxed) ≡ true = ground arith in rw self refl;
    aligned = λ a l p e. rw (sym (is_root a l p e)) (aligned t.boxed).0;
    fresh = λ i h hi.
        let other : (boxes t.boxed == boxes i) ≡ false =
          ground (arith, distinct t.boxed i (omega arith) hi) in
        rw other refl;
    points = λ a l p j e h there.
        let root = is_root a (suc l) p e in
        let absent : false ≡ true = sym (zeroed_absent j h) ∙ rw (sym root) at there in
        absurd (ground (arith, absent));
  }

  pub leaf-zeroed_box : (addr : ℕ) → leaf (zeroed_box boxes t) 3 (boxes t.boxed) addr ≡ 0
  leaf-zeroed_box addr = leaf-none (zeroed_box boxes t) 2 (boxes t.boxed) addr (
      next_level-absent (zeroed_box boxes t) (boxes t.boxed) (calc_index 39 addr)
        (zeroed_absent (calc_index 39 addr) (calc_index-lt 39 addr)))
