-- ===== src/X86/Paging/Descend.antt =====
-- `ensure_populated` of wasabi/src/x86.rs on a tree of tables: a new table hangs below a free entry.
use osdev_hikalium.Prelude.{
  ℕ, zero, suc, ◌+◌, ◌*◌, ◌<◌, ◌≡◌, ◌≢◌, refl, ap, sym, ◌∙◌, inl, inr, Bool-cases, true, false,
  ◌&&◌, bit_or, ltb, leb, ◌==◌, if◌then◌else◌, Option, none, some, arith,
}
use osdev_hikalium.X86.Paging.{
  Tables, is_present, next_level, calc_index, entry_at, write_entry, zeroed_box, page_size,
}
use osdev_hikalium.X86.Paging.Create.{AreAligned, PointsTo, points_to}
use osdev_hikalium.X86.Paging.Tree.{
  Places, IsTree, target, shift_at, calc_index-lt, next_level-present, next_level-absent,
  next_level-same, entries_apart, leaf,
}
use osdev_hikalium.X86.Paging.Leaf.{leaf-some, leaf-none}

-- Boxes below the limit that are in use at once are different.
abbrev pub AreDistinct : (ℕ → ℕ) → ℕ → Type 0
AreDistinct boxes limit = (i j : ℕ) → i < j → j < limit → boxes i ≢ boxes j

none_ne : {z : ℕ × ℕ} (o : Option (ℕ × ℕ)) → o ≡ none → ¬ (o ≡ some z)
none_ne o e f = ground (arith, sym e ∙ f)

module _ (boxes : ℕ → ℕ) (limit pml4 : ℕ) (places : Places) (t : Tables) (a l p k : ℕ) where
  -- The state after `populate` at entry k of table a.
  abbrev pub populated : Tables
  populated = write_entry (zeroed_box boxes t) (entry_at a k) (bit_or (boxes t.boxed) 3)

  abbrev pub grown : Places
  grown x = if boxes t.boxed == x then some (l, p * 512 + k) else places x

  -- Entry k of table a is free, and there is a box for its table.
  pub record IsFree : Type 0 where
    pub tree : IsTree boxes limit pml4 places t
    pub aligned : AreAligned boxes
    pub distinct : AreDistinct boxes limit
    pub place : places a ≡ some (suc l, p)
    pub index : k < 512
    pub free : is_present (t.mem (entry_at a k)) ≡ false
    pub room : t.boxed < limit

  module _ (f : IsFree) where
    new_ne : (b : ℕ) (z : ℕ × ℕ) → places b ≡ some z → boxes t.boxed ≢ b
    new_ne b z e same =
        none_ne (places b) ((rw (sym same) refl) ∙ f.tree.fresh t.boxed (omega arith) f.room) e

    pub grown-old : (b : ℕ) (z : ℕ × ℕ) → places b ≡ some z → grown b ≡ some z
    grown-old b z e =
        let other : (boxes t.boxed == b) ≡ false = ground (arith, new_ne b z e) in rw other e

    pub grown-new : grown (boxes t.boxed) ≡ some (l, p * 512 + k)
    grown-new = let self : (boxes t.boxed == boxes t.boxed) ≡ true = ground arith in rw self refl

    pub mem_entry : populated.mem (entry_at a k) ≡ bit_or (boxes t.boxed) 3
    mem_entry = let self : (entry_at a k == entry_at a k) ≡ true = ground arith in rw self refl

    pub mem_new : (j : ℕ) → j < 512 → populated.mem (entry_at (boxes t.boxed) j) ≡ 0
    mem_new j h =
        let base = (f.aligned t.boxed).0 in
        let apart : ¬ (entry_at a k ≡ entry_at (boxes t.boxed) j) = λ e.
          new_ne a (suc l, p) f.place
            (sym
              (entries_apart a (boxes t.boxed) k j (f.tree.aligned a (suc l) p f.place) base f.index
                h e).0) in
        let other : (entry_at a k == entry_at (boxes t.boxed) j) ≡ false = ground (arith, apart) in
        let low : leb (boxes t.boxed) (entry_at (boxes t.boxed) j) ≡ true = ground arith in
        let high : ltb (entry_at (boxes t.boxed) j) (boxes t.boxed + page_size) ≡ true =
          ground (arith, h) in
        rw (other, low, high) refl

    pub mem_other :
        (b j l' p' : ℕ)
        → places b ≡ some (l', p')
        → j < 512
        → ¬ ((a ≡ b) × (k ≡ j))
        → populated.mem (entry_at b j) ≡ t.mem (entry_at b j)
    mem_other b j l' p' e h ne =
        let base = (f.aligned t.boxed).0 in
        let old = f.tree.aligned b l' p' e in
        let apart : ¬ (entry_at a k ≡ entry_at b j) =
          λ e. ne (entries_apart a b k j (f.tree.aligned a (suc l) p f.place) old f.index h e) in
        let other : (entry_at a k == entry_at b j) ≡ false = ground (arith, apart) in
        let outside : (leb (boxes t.boxed) (entry_at b j)
              && ltb (entry_at b j) (boxes t.boxed + page_size))
            ≡ false =
          ground (arith, new_ne b (l', p') e, base, old, h) in
        rw (other, outside) refl

    pub new_present : PointsTo (bit_or (boxes t.boxed) 3) (boxes t.boxed)
    new_present = points_to (boxes t.boxed) (f.aligned t.boxed).0 (f.aligned t.boxed).1

    pub next_level-new : next_level populated a k ≡ some (boxes t.boxed)
    next_level-new =
        next_level-present populated a k f.index (ap is_present mem_entry ∙ new_present.present)
        ∙ ap (λ w. some (target w)) mem_entry
        ∙ ap some new_present.target

    leaf-new : (l' addr : ℕ) → leaf populated l' (boxes t.boxed) addr ≡ 0
    unfolding leaf
    leaf-new zero addr = mem_new (calc_index 12 addr) (calc_index-lt 12 addr)
    leaf-new (suc l') addr = leaf-none populated l' (boxes t.boxed) addr (
        next_level-absent populated (boxes t.boxed) _
          (ap is_present (mem_new (calc_index (shift_at (suc l')) addr) (calc_index-lt _ addr))))

    pub same_place : (b j : ℕ) → (a == b && k == j) ≡ true → (a ≡ b) × (k ≡ j)
    same_place b j e = ground (arith, e)

    pub other_place : (b j : ℕ) → (a == b && k == j) ≡ false → ¬ ((a ≡ b) × (k ≡ j))
    other_place b j e h = ground (arith, e, h)

    -- A new table of zeros changes no leaf.
    pub leaf-populated :
        (l' b p' addr : ℕ) → places b ≡ some (l', p') → leaf populated l' b addr ≡ leaf t l' b addr
    unfolding leaf
    leaf-populated zero b p' addr e =
        mem_other b (calc_index 12 addr) zero p' e (calc_index-lt 12 addr)
          (λ h. ground (arith, sym f.place ∙ ap places h.0 ∙ e))
    leaf-populated (suc l') b p' addr e =
        let j = calc_index (shift_at (suc l')) addr in
        elim (Bool-cases (a == b && k == j)) [
          | inl here ↦
              let at = same_place b j here in
              let absent : is_present (t.mem (entry_at b j)) ≡ false =
                rw (sym at.0, sym at.1) f.free in
              let next : next_level populated b j ≡ some (boxes t.boxed) =
                rw (sym at.0, sym at.1) next_level-new in
              leaf-some populated l' b (boxes t.boxed) addr next
              ∙ leaf-new l' addr
              ∙ sym (leaf-none t l' b addr (next_level-absent t b j absent))
          | inr away ↦
              let same =
                next_level-same t populated b j
                  (mem_other b j (suc l') p' e (calc_index-lt _ addr) (other_place b j away)) in
              elim (Bool-cases (is_present (t.mem (entry_at b j)))) [
                | inl there ↦
                    let next = next_level-present t b j (calc_index-lt _ addr) there in
                    leaf-some populated l' b _ addr (same ∙ next)
                    ∙ leaf-populated l' (target (t.mem (entry_at b j))) (p' * 512 + j) addr
                        (f.tree.points b l' p' j e (calc_index-lt _ addr) there)
                    ∙ sym (leaf-some t l' b _ addr next)
                | inr absent ↦
                    let gone = next_level-absent t b j absent in
                    leaf-none populated l' b addr (same ∙ gone) ∙ sym (leaf-none t l' b addr gone)
              ]
        ]
