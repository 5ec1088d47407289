-- ===== src/X86/Paging/Level.antt =====
-- One level of the descent of `create_mapping` of wasabi/src/x86.rs on a tree of tables.
use osdev_hikalium.Prelude.{
  ℕ, suc, ◌+◌, ◌*◌, ◌%◌, ◌≤◌, ◌<◌, ◌≡◌, refl, ap, sym, ◌∙◌, inl, inr, Bool-cases, true, false, ◌&&◌,
  ◌==◌, ==→≡, Option, none, some, arith,
}
use osdev_hikalium.X86.Paging.{
  Tables, ok, is_present, next_level, calc_index, entry_at, ensure_populated, populate, table_mut,
  descend,
}
use osdev_hikalium.X86.Paging.Create.{AreAligned}
use osdev_hikalium.X86.Paging.Tree.{
  Places, IsTree, target, calc_index-lt, next_level-present, next_level-absent, next_level-same,
  leaf,
}
use osdev_hikalium.X86.Paging.Descend.{
  AreDistinct, IsFree, populated, grown, grown-old, grown-new, mem_entry, mem_new, mem_other,
  new_present, next_level-new, same_place, other_place, leaf-populated,
}

abbrev placed : ℕ → ℕ → Option (ℕ × ℕ)
placed l p = some (l, p)

same_parts :
    (o : Option (ℕ × ℕ)) (l p l' p' k j : ℕ)
    → o ≡ some (suc l, p)
    → o ≡ some (suc l', p')
    → k ≡ j
    → placed l (p * 512 + k) ≡ placed l' (p' * 512 + j)
same_parts o l p l' p' k j e e' h =
    let same : placed (suc l) p ≡ placed (suc l') p' = sym e ∙ e' in
    let el : l ≡ l' = ground (arith, same) in
    let ep : p ≡ p' = ground (arith, same) in rw (el, ep, h) refl

module _ (boxes : ℕ → ℕ) (limit pml4 : ℕ) where
  module _ (places : Places) (t : Tables) (a l p k : ℕ)
      (f : IsFree boxes limit pml4 places t a l p k) where
    abbrev places_after : Places
    places_after = grown boxes limit pml4 places t a l p k

    abbrev tables_after : Tables
    tables_after = populated boxes limit pml4 places t a l p k

    grown-aligned : (b l' p' : ℕ) → places_after b ≡ some (l', p') → b % 4096 ≡ 0
    grown-aligned b l' p' e = elim (Bool-cases (boxes t.boxed == b)) [
      | inl new ↦ rw (sym (==→≡ _ _ new)) (f.aligned t.boxed).0
      | inr old ↦ f.tree.aligned b l' p' (rw old at e)
    ]

    grown-fresh : (i : ℕ) → suc t.boxed ≤ i → i < limit → places_after (boxes i) ≡ none
    grown-fresh i h hi =
        let other : (boxes t.boxed == boxes i) ≡ false =
          ground (arith, f.distinct t.boxed i (omega arith) hi) in
        rw other (f.tree.fresh i (omega arith) hi)

    grown-points :
        (b l' p' j : ℕ)
        → places_after b ≡ some (suc l', p')
        → j < 512
        → is_present (tables_after.mem (entry_at b j)) ≡ true
        → places_after (target (tables_after.mem (entry_at b j))) ≡ some (l', p' * 512 + j)
    grown-points b l' p' j e h there = elim (Bool-cases (boxes t.boxed == b)) [
      | inl new ↦
          let zeroed : tables_after.mem (entry_at b j) ≡ 0 =
            rw (sym (==→≡ _ _ new)) (mem_new boxes limit pml4 places t a l p k f j h) in
          let absent : false ≡ true = sym (ap is_present zeroed) ∙ there in
          absurd (ground (arith, absent))
      | inr old ↦
          let place : places b ≡ some (suc l', p') = rw old at e in
          elim (Bool-cases (a == b && k == j)) [
            | inl here ↦
                let at = same_place boxes limit pml4 places t a l p k f b j here in
                let word : target (tables_after.mem (entry_at b j)) ≡ boxes t.boxed =
                  rw (sym at.0, sym at.1)
                    (ap target (mem_entry boxes limit pml4 places t a l p k f)
                      ∙ (new_present boxes limit pml4 places t a l p k f).target) in
                ap places_after word
                ∙ grown-new boxes limit pml4 places t a l p k f
                ∙ same_parts (places b) l p l' p' k j (ap places (sym at.0) ∙ f.place) place at.1
            | inr away ↦
                let word =
                  mem_other boxes limit pml4 places t a l p k f b j (suc l') p' place h
                    (other_place boxes limit pml4 places t a l p k f b j away) in
                ap (λ w. places_after (target w)) word
                ∙ grown-old boxes limit pml4 places t a l p k f _ (l', p' * 512 + j)
                    (f.tree.points b l' p' j place h (sym (ap is_present word) ∙ there))
          ]
    ]

    populated-IsTree : IsTree boxes limit pml4 places_after tables_after
    populated-IsTree = record {
      root = grown-old boxes limit pml4 places t a l p k f pml4 (3, 0) f.tree.root;
      aligned = grown-aligned;
      fresh = grown-fresh;
      points = grown-points;
    }

    next_level-kept :
        (b l' p' j x : ℕ)
        → places b ≡ some (l', p')
        → j < 512
        → next_level t b j ≡ some x
        → next_level tables_after b j ≡ some x
    next_level-kept b l' p' j x e h next = elim (Bool-cases (a == b && k == j)) [
      | inl here ↦
          let at = same_place boxes limit pml4 places t a l p k f b j here in
          let gone : next_level t b j ≡ none =
            next_level-absent t b j (rw (sym at.0, sym at.1) f.free) in
          absurd (ground (arith, sym gone ∙ next))
      | inr away ↦
          next_level-same t tables_after b j (
            mem_other boxes limit pml4 places t a l p k f b j l' p' e h
              (other_place boxes limit pml4 places t a l p k f b j away))
          ∙ next
    ]

  -- What the descent at entry k of table a leaves, with the next table x.
  pub record Descends (places : Places) (t : Tables) (a l p k x : ℕ) (after : Places) (u : Tables)
      : Type 0 where
    pub tree : IsTree boxes limit pml4 after u
    pub place : after x ≡ some (l, p * 512 + k)
    pub leads : next_level u a k ≡ some x
    pub old : (b : ℕ) (z : ℕ × ℕ) → places b ≡ some z → after b ≡ some z
    pub keeps :
        (b l' p' j y : ℕ)
        → places b ≡ some (l', p')
        → j < 512
        → next_level t b j ≡ some y
        → next_level u b j ≡ some y
    pub leaves : (l' b p' addr : ℕ) → places b ≡ some (l', p') → leaf u l' b addr ≡ leaf t l' b addr
    pub used : u.boxed ≤ suc t.boxed

  -- On tables that form a tree, with page-aligned boxes that differ and one of them left, the
  -- descent at a table above the page tables succeeds, takes at most one box, and keeps the tree
  -- and all places in it: the entry leads to a table of the next level for the bits of the
  -- address, entries that led to a table still do, and no address gets another translation.
  pub descend-Descends :
      (shift addr a l p : ℕ) (places : Places) (t : Tables)
      → IsTree boxes limit pml4 places t
      → AreAligned boxes
      → AreDistinct boxes limit
      → t.boxed < limit
      → places a ≡ some (suc l, p)
      → (x : ℕ) × (after : Places) × (u : Tables) × (descend boxes shift addr a t ≡ ok x u)
        × Descends places t a l p (calc_index shift addr) x after u
  unfolding descend ensure_populated populate table_mut
  descend-Descends shift addr a l p places t tree aligned distinct room place =
      let k = calc_index shift addr in
      let h = calc_index-lt shift addr in
      elim (Bool-cases (is_present (t.mem (entry_at a k)))) [
        | inl there ↦ (
          target (t.mem (entry_at a k)),
          places,
          t,
          rw (there, there) refl,
          record {
            tree = tree;
            place = tree.points a l p k place h there;
            leads = next_level-present t a k h there;
            old = λ b z e. e;
            keeps = λ b l' p' j y e lt next. next;
            leaves = λ l' b p' addr e. refl;
            used = omega arith;
          },
        )
        | inr free ↦
            let f : IsFree boxes limit pml4 places t a l p k = record {
              tree = tree;
              aligned = aligned;
              distinct = distinct;
              place = place;
              index = h;
              free = free;
              room = room;
            } in
            let word = mem_entry boxes limit pml4 places t a l p k f in
            let new = new_present boxes limit pml4 places t a l p k f in
            (
              boxes t.boxed,
              places_after places t a l p k f,
              tables_after places t a l p k f,
              rw (free, word, new.present, new.target) refl,
              record {
                tree = populated-IsTree places t a l p k f;
                place = grown-new boxes limit pml4 places t a l p k f;
                leads = next_level-new boxes limit pml4 places t a l p k f;
                old = grown-old boxes limit pml4 places t a l p k f;
                keeps = next_level-kept places t a l p k f;
                leaves = leaf-populated boxes limit pml4 places t a l p k f;
                used = omega arith;
              },
            )
      ]
