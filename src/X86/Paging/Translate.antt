-- ===== src/X86/Paging/Translate.antt =====
-- What `create_mapping` of wasabi/src/x86.rs does to the translation of addresses.
use osdev_hikalium.Prelude.{
  ℕ, zero, suc, ◌+◌, ◌-◌, ◌*◌, ◌/◌, ◌%◌, ◌^◌, ◌≤◌, ◌<◌, ◌≡◌, refl, ap, ◌∙◌, inl, inr, Bool-cases,
  Bool, true, false, ◌&&◌, bit_or, ltb, leb, ◌==◌, ==→≡, ==→≢, if◌then◌else◌, some, arith,
}
use osdev_hikalium.Prelude.Usize.{word_mod}
use osdev_hikalium.X86.Paging.{
  PageAttr, attr_bits, Tables, ok, next_level, calc_index, entry_at, write_entry, descend, set_page,
  map_page, map_pages, create_mapping, page_size,
}
use osdev_hikalium.X86.Paging.Create.{AreAligned, page_aligned, create_mapping-loops}
use osdev_hikalium.X86.Paging.Tree.{Places, IsTree, calc_index-lt, next_level-same, leaf}
use osdev_hikalium.X86.Paging.Leaf.{leaf-some}
use osdev_hikalium.X86.Paging.Descend.{AreDistinct}
use osdev_hikalium.X86.Paging.Level.{descend-Descends}
use osdev_hikalium.X86.Paging.Written.{
  index-page, bits_of_indices, written-IsTree, written-upper, leaf-written,
}

-- The entry for an address whose page is mapped.
abbrev pub page_entry : ℕ → ℕ → PageAttr → ℕ → ℕ
page_entry start phys attr addr = bit_or (phys + addr / 4096 * 4096 - start) (attr_bits attr)

-- Address `other` stands from addr on and before end.
abbrev pub in_range : ℕ → ℕ → ℕ → Bool
in_range addr end other = leb addr other && ltb other end

leaf-three :
    (t : Tables) (a b c d addr : ℕ)
    → next_level t a (calc_index 39 addr) ≡ some b
    → next_level t b (calc_index 30 addr) ≡ some c
    → next_level t c (calc_index 21 addr) ≡ some d
    → leaf t 3 a addr ≡ t.mem (entry_at d (calc_index 12 addr))
unfolding leaf
leaf-three t a b c d addr e f g =
    leaf-some t 2 a b addr e ∙ leaf-some t 1 b c addr f ∙ leaf-some t 0 c d addr g

module _ (boxes : ℕ → ℕ) (limit pml4 : ℕ) where
  -- The tree that is left, and the leaf of every address of 48 bits: `value` gives it for some of them,
  -- and the others have what they had.
  pub record Translates (test : ℕ → Bool) (value : ℕ → ℕ) (t : Tables) (after : Places) (u : Tables)
      : Type 0 where
    pub tree : IsTree boxes limit pml4 after u
    pub leaves :
        (addr : ℕ)
        → addr < 2 ^ 48
        → leaf u 3 pml4 addr ≡ (if test addr then value addr else leaf t 3 pml4 addr)

  -- An address whose tables are reached, with the place of its page table.
  record Reached (addr : ℕ) (t : Tables) (after : Places) (u : Tables) (x : ℕ) : Type 0 where
    tree : IsTree boxes limit pml4 after u
    place : after x ≡ some (0, addr / 2 ^ 21)
    path :
        (a : ℕ) × (b : ℕ) × (p : ℕ) × (q : ℕ) × (after a ≡ some (2, p))
        × (after b ≡ some (1, q))
        × (next_level u pml4 (calc_index 39 addr) ≡ some a)
        × (next_level u a (calc_index 30 addr) ≡ some b)
        × (next_level u b (calc_index 21 addr) ≡ some x)
    leaves : (other : ℕ) → leaf u 3 pml4 other ≡ leaf t 3 pml4 other
    used : u.boxed ≤ t.boxed + 3

  abbrev Descent : ℕ → ℕ → Tables → ℕ → Tables → Type 0
  Descent addr pml4 t x u =
      (a : ℕ) × (v : Tables) × (b : ℕ) × (w : Tables) × (descend boxes 39 addr pml4 t ≡ ok a v)
      × (descend boxes 30 addr a v ≡ ok b w)
      × (descend boxes 21 addr b w ≡ ok x u)

  descend-Reached :
      (addr : ℕ) (places : Places) (t : Tables)
      → IsTree boxes limit pml4 places t
      → AreAligned boxes
      → AreDistinct boxes limit
      → t.boxed + 3 ≤ limit
      → addr < 2 ^ 48
      → (x : ℕ) × (after : Places) × (u : Tables) × Descent addr pml4 t x u
        × Reached addr t after u x
  descend-Reached addr places t tree aligned distinct room small =
      let one =
        descend-Descends boxes limit pml4 39 addr pml4 2 0 places t tree aligned distinct
          (omega arith) tree.root in
      let two =
        descend-Descends boxes limit pml4 30 addr one.0 1 (0 * 512 + calc_index 39 addr) one.1 one.2
          one.4.tree aligned distinct (omega (arith, one.4.used)) one.4.place in
      let three =
        descend-Descends boxes limit pml4 21 addr two.0 0
          ((0 * 512 + calc_index 39 addr) * 512 + calc_index 30 addr) two.1 two.2 two.4.tree aligned
          distinct (omega (arith, one.4.used, two.4.used)) two.4.place in
      let root_one = one.4.old pml4 (3, 0) tree.root in
      let root_two = two.4.old pml4 (3, 0) root_one in
      let place_two = two.4.old one.0 (2, 0 * 512 + calc_index 39 addr) one.4.place in
      (
        three.0,
        three.1,
        three.2,
        (one.0, one.2, two.0, two.2, one.3, two.3, three.3),
        record {
          tree = three.4.tree;
          place = three.4.place ∙ ap (λ (b : ℕ). some (0, b)) (bits_of_indices addr small);
          path = (
            one.0,
            two.0,
            _,
            _,
            three.4.old one.0 (2, 0 * 512 + calc_index 39 addr) place_two,
            three.4.old two.0 (1, (0 * 512 + calc_index 39 addr) * 512 + calc_index 30 addr)
                two.4.place,
            three.4.keeps pml4 3 0 (calc_index 39 addr) one.0 root_two (calc_index-lt 39 addr) (
                two.4.keeps pml4 3 0 (calc_index 39 addr) one.0 root_one (calc_index-lt 39 addr)
                  one.4.leads),
            three.4.keeps one.0 2 (0 * 512 + calc_index 39 addr) (calc_index 30 addr) two.0
                place_two (calc_index-lt 30 addr) two.4.leads,
            three.4.leads,
          );
          leaves = λ other.
              three.4.leaves 3 pml4 0 other root_two
              ∙ two.4.leaves 3 pml4 0 other root_one
              ∙ one.4.leaves 3 pml4 0 other tree.root;
          used = omega (arith, one.4.used, two.4.used, three.4.used);
        },
      )

  -- The entry of a reached address is written.
  set-Translates :
      (start phys addr x : ℕ) (attr : PageAttr) (t : Tables) (after : Places) (u : Tables)
      → Reached addr t after u x
      → addr % 4096 ≡ 0
      → Translates
          (λ other. other / 4096 == addr / 4096)
          (page_entry start phys attr)
          t
          after
          (write_entry u
            (entry_at x (calc_index 12 addr))
            (bit_or (phys + addr - start) (attr_bits attr)))
  set-Translates start phys addr x attr t after u r whole =
      let v = bit_or (phys + addr - start) (attr_bits attr) in
      let k = calc_index 12 addr in
      let lt = calc_index-lt 12 addr in
      let upper = written-upper boxes limit pml4 after u x (addr / 2 ^ 21) k v r.tree in
      record {
        tree = written-IsTree boxes limit pml4 after u x (addr / 2 ^ 21) k v r.tree r.place lt;
        leaves = λ other small. elim (Bool-cases (other / 4096 == addr / 4096)) [
          | inr away ↦ rw away (
              leaf-written boxes limit pml4 after u x (addr / 2 ^ 21) k v r.tree addr other r.place
                refl refl small (==→≢ _ _ away)
              ∙ r.leaves other)
          | inl here ↦
              let page : other / 4096 ≡ addr / 4096 = ==→≡ _ _ here in
              let base : phys + addr - start ≡ phys + other / 4096 * 4096 - start =
                omega (arith, page, whole) in
              let self : (entry_at x k == entry_at x k) ≡ true = ground arith in
              let kept : (a l p j : ℕ)
                  → after a ≡ some (suc l, p)
                  → j < 512
                  → next_level (write_entry u (entry_at x k) v) a j ≡ next_level u a j =
                λ a l p j e h.
                  next_level-same u (write_entry u (entry_at x k) v) a j
                    (upper a l p j r.place lt e h) in
              rw here (
                leaf-three (write_entry u (entry_at x k) v) pml4 r.path.0 r.path.1 x other
                  (rw (index-page 3 other addr (omega arith) page) (
                    kept pml4 2 0 (calc_index 39 addr) r.tree.root (calc_index-lt 39 addr)
                    ∙ r.path.6))
                  (rw (index-page 2 other addr (omega arith) page) (
                    kept r.path.0 1 r.path.2 (calc_index 30 addr) r.path.4 (calc_index-lt 30 addr)
                    ∙ r.path.7))
                  (rw (index-page 1 other addr (omega arith) page) (
                    kept r.path.1 0 r.path.3 (calc_index 21 addr) r.path.5 (calc_index-lt 21 addr)
                    ∙ r.path.8))
                ∙ (rw (index-page 0 other addr (omega arith) page, self, base) refl))
        ];
      }

  map_page-Translates :
      (start phys addr : ℕ) (attr : PageAttr) (places : Places) (t : Tables)
      → IsTree boxes limit pml4 places t
      → AreAligned boxes
      → AreDistinct boxes limit
      → t.boxed + 3 ≤ limit
      → start ≤ addr
      → phys % 4096 ≡ 0
      → start % 4096 ≡ 0
      → addr % 4096 ≡ 0
      → addr < 2 ^ 48
      → phys + addr < word_mod
      → (after : Places) × (u : Tables) × (map_page boxes pml4 start phys attr addr t ≡ ok tt u)
        × Translates (λ other. other / 4096 == addr / 4096) (page_entry start phys attr) t after u
        × (u.boxed ≤ t.boxed + 3)
  unfolding map_page set_page
  map_page-Translates start phys addr attr places t tree aligned distinct room le hp hs ha small
        fits =
      let d = descend-Reached addr places t tree aligned distinct room small in
      let fit : ltb (phys + addr) word_mod ≡ true = ground arith in
      (
        d.1,
        write_entry d.2 (entry_at d.0 (calc_index 12 addr))
            (bit_or (phys + addr - start) (attr_bits attr)),
        rw (d.3.4, d.3.5, d.3.6, fit, page_aligned boxes phys start addr le hp hs ha) refl,
        set-Translates start phys addr d.0 attr t d.1 d.2 d.4 ha,
        d.4.used,
      )

  map_pages-Translates :
      (n start phys addr : ℕ) (attr : PageAttr) (places : Places) (t : Tables)
      → IsTree boxes limit pml4 places t
      → AreAligned boxes
      → AreDistinct boxes limit
      → t.boxed + 3 * n ≤ limit
      → start ≤ addr
      → phys % 4096 ≡ 0
      → start % 4096 ≡ 0
      → addr % 4096 ≡ 0
      → addr + n * 4096 ≤ 2 ^ 48
      → phys + addr + n * 4096 ≤ word_mod
      → (after : Places) × (u : Tables) × (map_pages boxes n pml4 start phys attr addr t ≡ ok tt u)
        × Translates (in_range addr (addr + n * 4096)) (page_entry start phys attr) t after u
  unfolding map_pages
  map_pages-Translates zero start phys addr attr places t tree aligned distinct room le hp hs ha
        small fits =
      (
        places,
        t,
        refl,
        record {
          tree = tree;
          leaves = λ other h.
              let out : in_range addr (addr + 0) other ≡ false = ground arith in rw out refl;
        },
      )
  map_pages-Translates (suc n) start phys addr attr places t tree aligned distinct room le hp hs ha
        small fits =
      let one =
        map_page-Translates start phys addr attr places t tree aligned distinct (omega arith) le hp
          hs ha (omega arith) (omega arith) in
      let rest =
        map_pages-Translates n start phys (addr + page_size) attr one.0 one.1 one.3.tree aligned
          distinct (omega (arith, one.4)) (omega arith) hp hs (omega arith) (omega arith)
          (omega arith) in
      (
        rest.0,
        rest.1,
        rw one.2 rest.2,
        record {
          tree = rest.3.tree;
          leaves = λ other h.
              rest.3.leaves other h
              ∙ ap
                  (λ (w : ℕ).
                    if in_range (addr + page_size) (addr + page_size + n * 4096) other
                    then page_entry start phys attr other
                    else w)
                  (one.3.leaves other h)
              ∙ pages_join n addr other (page_entry start phys attr other) (leaf t 3 pml4 other) ha;
        },
      )
    where
      pages_join :
          (n addr other w old : ℕ)
          → addr % 4096 ≡ 0
          → (if in_range (addr + page_size) (addr + page_size + n * 4096) other
              then w
              else (if other / 4096 == addr / 4096 then w else old))
            ≡ (if in_range addr (addr + suc n * 4096) other then w else old)
      pages_join n addr other w old ha = ground arith

  map_range-Translates :
      (n start end phys : ℕ) (attr : PageAttr) (places : Places) (t : Tables)
      → start + n * 4096 ≡ end
      → IsTree boxes limit pml4 places t
      → AreAligned boxes
      → AreDistinct boxes limit
      → t.boxed + 3 * n ≤ limit
      → phys % 4096 ≡ 0
      → start % 4096 ≡ 0
      → start + n * 4096 ≤ 2 ^ 48
      → phys + start + n * 4096 ≤ word_mod
      → (after : Places) × (u : Tables) × (map_pages boxes n pml4 start phys attr start t ≡ ok tt u)
        × Translates (in_range start end) (page_entry start phys attr) t after u
  map_range-Translates n start end phys attr places t last tree aligned distinct room hp hs small
        fits =
      rw (← last) (
        map_pages-Translates n start phys start attr places t tree aligned distinct room
          (omega arith) hp hs hs small fits)

  -- On tables that form a tree, with page-aligned boxes that differ and suffice, for aligned
  -- arguments, a range that ends at 2 ^ 48 at most, not before it starts, and physical addresses
  -- within 2 ^ 64, create_mapping returns Ok and the tables form a tree again. The walk through
  -- the four levels then finds for each address of the range an entry with the physical page at
  -- the same distance and the attribute, and for every other address of 48 bits the entry that it
  -- found before.
  pub create_mapping-Translates :
      (start end phys : ℕ) (attr : PageAttr) (places : Places) (t : Tables)
      → IsTree boxes limit pml4 places t
      → AreAligned boxes
      → AreDistinct boxes limit
      → t.boxed + 3 * ((end - start) / 4096) ≤ limit
      → start ≤ end
      → end ≤ 2 ^ 48
      → start % 4096 ≡ 0
      → end % 4096 ≡ 0
      → phys % 4096 ≡ 0
      → phys + end ≤ word_mod
      → (after : Places) × (u : Tables) × (create_mapping boxes pml4 start end phys attr t
          ≡ ok tt u)
        × Translates (in_range start end) (page_entry start phys attr) t after u
  create_mapping-Translates start end phys attr places t tree aligned distinct room le small hs he
        hp fits =
      let n = (end - start + 4095) / 4096 in
      let last : start + n * 4096 ≡ end = omega (arith, hs, he) in
      let r =
        map_range-Translates n start end phys attr places t last tree aligned distinct
          (omega (arith, hs, he)) hp hs (omega (arith, last)) (omega (arith, last)) in
      (r.0, r.1, create_mapping-loops boxes pml4 start end phys attr t hs he hp ∙ r.2, r.3)
