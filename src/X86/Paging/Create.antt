-- ===== src/X86/Paging/Create.antt =====
-- `populate` and `create_mapping` of wasabi/src/x86.rs.
use osdev_hikalium.Prelude.{
  ℕ, zero, suc, ◌+◌, ◌-◌, ◌*◌, ◌/◌, ◌%◌, ◌^◌, ◌≤◌, ◌<◌, ◌≡◌, refl, ◌∙◌, inl, inr, ◌⊎◌, true, false,
  Bool-cases, bit_and, bit_or, ltb, ◌==◌, arith,
}
use osdev_hikalium.Prelude.Bits.{bit_and_low, bit_and_single, bit_and_high, bit_or_disjoint}
use osdev_hikalium.Prelude.Usize.{word_mod, not_word}
use osdev_hikalium.X86.Paging.{
  PageAttr, attr_bits, Tables, Result, ok, err, invalid_virt_start, invalid_phys, is_present,
  is_writable, is_user, write_entry, table_mut, set_page, calc_index, entry_at, populate,
  ensure_populated, descend, map_page, map_pages, create_mapping, zeroed_box, page_size, attr_mask,
}

-- A box of a table stands at a multiple of its alignment, below 2 ^ 64.
abbrev pub AreAligned : (ℕ → ℕ) → Type 0
AreAligned boxes = (i : ℕ) → (boxes i % 4096 ≡ 0) × (boxes i < word_mod)

-- The entry of a fresh table.
pub record PointsTo (value table : ℕ) : Type 0 where
  pub present : is_present value ≡ true
  pub writable : is_writable value ≡ true
  pub supervisor : is_user value ≡ false
  pub target : bit_and value (not_word attr_mask) ≡ table

pub aligned_or : (a : ℕ) → a % 4096 ≡ 0 → bit_or a 3 ≡ a + 3
aligned_or a h =
    let e : a / 4096 * 2 ^ 12 ≡ a = omega (arith, h) in
    rw e at (bit_or_disjoint 12 (a / 4096) 3 (omega arith))

pub points_to : (a : ℕ) → a % 4096 ≡ 0 → a < word_mod → PointsTo (bit_or a 3) a
points_to a h lt = rw (aligned_or a h) (record {
  present = let e : bit_and (a + 3) 1 ≡ 1 = omega (arith, h, bit_and_single 0 (a + 3)) in rw e refl;
  writable =
      let e : bit_and (a + 3) 2 ≡ 2 = omega (arith, h, bit_and_single 1 (a + 3)) in rw e refl;
  supervisor =
      let e : bit_and (a + 3) 4 ≡ 0 = omega (arith, h, bit_and_single 2 (a + 3)) in rw e refl;
  target = bit_and_high 52 12 (a + 3) (omega arith) ∙ omega (arith, h);
})

aligned_test : (a : ℕ) → a % 4096 ≡ 0 → (bit_and a 0xFFF == 0) ≡ true
aligned_test a h = let e : bit_and a 0xFFF ≡ 0 = omega (arith, h, bit_and_low 12 a) in rw e refl

not_aligned_test : (a : ℕ) → ¬ (a % 4096 ≡ 0) → (bit_and a 0xFFF == 0) ≡ false
not_aligned_test a h =
    let e : bit_and a 0xFFF ≡ a % 4096 = bit_and_low 12 a in rw e (ground (arith, h))

module _ (boxes : ℕ → ℕ) where
  -- What ensure_populated leaves at an entry and elsewhere.
  pub record Populates (entry : ℕ) (before after : Tables) : Type 0 where
    pub present : is_present (after.mem entry) ≡ true
    pub kept : is_present (before.mem entry) ≡ true → after ≡ before
    pub fresh :
        is_present (before.mem entry) ≡ false → PointsTo (after.mem entry) (boxes before.boxed)
    pub empty :
        (a : ℕ)
        → is_present (before.mem entry) ≡ false
        → entry < boxes before.boxed ⊎ boxes before.boxed + page_size ≤ entry
        → boxes before.boxed ≤ a
        → a < boxes before.boxed + page_size
        → after.mem a ≡ 0
    pub elsewhere :
        (a : ℕ)
        → a < boxes before.boxed ⊎ boxes before.boxed + page_size ≤ a
        → ¬ (entry ≡ a)
        → after.mem a ≡ before.mem a

  -- When the boxes of tables are page-aligned words, ensure_populated succeeds and leaves the
  -- entry present. A present entry is left alone with everything else; any other entry then
  -- points, present, writable and for the supervisor only, to the new box, whose words are 0 if
  -- the entry is outside it, and no word outside the box and the entry changes.
  pub ensure_populated-Populates :
      (entry : ℕ) (t : Tables)
      → AreAligned boxes
      → (u : Tables) × (ensure_populated boxes entry t ≡ ok tt u) × Populates entry t u
  unfolding ensure_populated populate
  ensure_populated-Populates entry t aligned = elim (Bool-cases (is_present (t.mem entry))) [
    | inl there ↦ (
      t,
      rw there refl,
      record {
        present = there;
        kept = λ h. refl;
        fresh = λ h. absurd (ground (arith, there, h));
        empty = λ a h apart low high. absurd (ground (arith, there, h));
        elsewhere = λ a apart ne. refl;
      },
    )
    | inr free ↦
        let self : (entry == entry) ≡ true = ground arith in
        let new = points_to (boxes t.boxed) (aligned t.boxed).0 (aligned t.boxed).1 in
        (
          write_entry (zeroed_box boxes t) entry (bit_or (boxes t.boxed) 3),
          rw free refl,
          record {
            present = rw self new.present;
            kept = λ h. absurd (ground (arith, free, h));
            fresh = λ h. rw self new;
            empty = λ a h apart low high. ground (arith, apart);
            elsewhere = λ a apart ne. ground (arith, apart, ne);
          },
        )
  ]

  -- A call that succeeds.
  Succeeds : {A : Type 0} → Result A → Type 0
  Succeeds {A = A} r = (a : A) × (t : Tables) × (r ≡ ok a t)

  descend-Succeeds :
      (shift addr table : ℕ) (t : Tables)
      → AreAligned boxes
      → Succeeds (descend boxes shift addr table t)
  unfolding descend table_mut Succeeds
  descend-Succeeds shift addr table t aligned =
      let p = ensure_populated-Populates (entry_at table (calc_index shift addr)) t aligned in
      (
        bit_and (p.0.mem (entry_at table (calc_index shift addr))) (not_word attr_mask),
        p.0,
        rw (p.1, p.2.present) refl,
      )

  -- The pages that the loop maps are aligned.
  pub page_aligned :
      (phys start addr : ℕ)
      → start ≤ addr
      → phys % 4096 ≡ 0
      → start % 4096 ≡ 0
      → addr % 4096 ≡ 0
      → bit_and (phys + addr - start) 0xFFF ≡ 0
  page_aligned phys start addr le hp hs ha = omega (arith, bit_and_low 12 (phys + addr - start))

  map_page-Succeeds :
      (pml4 start phys addr : ℕ) (attr : PageAttr) (t : Tables)
      → AreAligned boxes
      → start ≤ addr
      → phys % 4096 ≡ 0
      → start % 4096 ≡ 0
      → addr % 4096 ≡ 0
      → phys + addr < word_mod
      → Succeeds (map_page boxes pml4 start phys attr addr t)
  unfolding map_page set_page Succeeds
  map_page-Succeeds pml4 start phys addr attr t aligned le hp hs ha fits =
      let a = descend-Succeeds 39 addr pml4 t aligned in
      let b = descend-Succeeds 30 addr a.0 a.1 aligned in
      let c = descend-Succeeds 21 addr b.0 b.1 aligned in
      let room : ltb (phys + addr) word_mod ≡ true = ground arith in
      (
        tt,
        write_entry c.1 (entry_at c.0 (calc_index 12 addr))
            (bit_or (phys + addr - start) (attr_bits attr)),
        rw (a.2, b.2, c.2, room, page_aligned phys start addr le hp hs ha) refl,
      )

  map_pages-Succeeds :
      (n pml4 start phys addr : ℕ) (attr : PageAttr) (t : Tables)
      → AreAligned boxes
      → start ≤ addr
      → phys % 4096 ≡ 0
      → start % 4096 ≡ 0
      → addr % 4096 ≡ 0
      → phys + addr + n * 4096 ≤ word_mod
      → Succeeds (map_pages boxes n pml4 start phys attr addr t)
  unfolding map_pages Succeeds
  map_pages-Succeeds zero pml4 start phys addr attr t aligned le hp hs ha fits = (tt, t, refl)
  map_pages-Succeeds (suc n) pml4 start phys addr attr t aligned le hp hs ha fits =
      let page = map_page-Succeeds pml4 start phys addr attr t aligned le hp hs ha (omega arith) in
      let rest =
        map_pages-Succeeds n pml4 start phys (addr + page_size) attr page.1 aligned (omega arith) hp
          hs (omega arith) (omega arith) in
      (tt, rest.1, rw page.2 rest.2)

  pub create_mapping-loops :
      (pml4 start end phys : ℕ) (attr : PageAttr) (t : Tables)
      → start % 4096 ≡ 0
      → end % 4096 ≡ 0
      → phys % 4096 ≡ 0
      → create_mapping boxes pml4 start end phys attr t
        ≡ map_pages boxes ((end - start + 4095) / 4096) pml4 start phys attr start t
  unfolding create_mapping
  create_mapping-loops pml4 start end phys attr t hs he hp =
      rw (aligned_test start hs, aligned_test end he, aligned_test phys hp) refl

  -- What create_mapping returns: an argument that is not aligned is an error and changes nothing.
  pub record Maps (start end phys : ℕ) (before : Tables) (r : Result (Unit {0})) : Type 0 where
    pub start_rejected : ¬ (start % 4096 ≡ 0) → r ≡ err invalid_virt_start before
    pub end_rejected : start % 4096 ≡ 0 → ¬ (end % 4096 ≡ 0) → r ≡ err invalid_virt_start before
    pub phys_rejected :
        start % 4096 ≡ 0 → end % 4096 ≡ 0 → ¬ (phys % 4096 ≡ 0) → r ≡ err invalid_phys before
    pub succeeds :
        start % 4096 ≡ 0
        → end % 4096 ≡ 0
        → phys % 4096 ≡ 0
        → phys + end ≤ word_mod
        → (after : Tables) × (r ≡ ok tt after)

  -- When the boxes of tables are page-aligned words and virt_start is not after virt_end,
  -- create_mapping returns an error and changes nothing if virt_start, virt_end or phys is not a
  -- multiple of 4096, and it returns Ok, whatever the tables held before, if all three are and
  -- phys + virt_end stays within 2 ^ 64.
  pub create_mapping-Maps :
      (pml4 start end phys : ℕ) (attr : PageAttr) (t : Tables)
      → AreAligned boxes
      → start ≤ end
      → Maps start end phys t (create_mapping boxes pml4 start end phys attr t)
  unfolding create_mapping Succeeds
  create_mapping-Maps pml4 start end phys attr t aligned le = record {
    start_rejected = λ h. rw (not_aligned_test start h) refl;
    end_rejected = λ hs h. rw (aligned_test start hs, not_aligned_test end h) refl;
    phys_rejected =
        λ hs he h. rw (aligned_test start hs, aligned_test end he, not_aligned_test phys h) refl;
    succeeds = λ hs he hp fits.
        let r =
          map_pages-Succeeds ((end - start + 4095) / 4096) pml4 start phys start attr t aligned
            (omega arith) hp hs hs (omega (arith, le, hs, he)) in
        (r.1, create_mapping-loops pml4 start end phys attr t hs he hp ∙ r.2);
  }
