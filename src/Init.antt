-- ===== src/Init.antt =====
-- `init_paging` of wasabi/src/init.rs.
use osdev_hikalium.Prelude.{
  ℕ, ◌+◌, ◌-◌, ◌*◌, ◌%◌, ◌≤◌, ◌<◌, ◌≡◌, refl, ap, ◌∙◌, true, ltb, leb, ◌&&◌, ◌/◌, ◌^◌,
  if◌then◌else◌, bit_or, List, [], ◌∷◌, All, All-imp, arith,
}
use osdev_hikalium.Prelude.Usize
use osdev_hikalium.Prelude.Usize.{Outcome, panic, word_mod}
use osdev_hikalium.Uefi.Types.{EfiMemoryDescriptor}
use osdev_hikalium.Uefi.Boot.{end_of_memory, Ends, IsEnd, end_of_memory-IsEnd}
use osdev_hikalium.X86.Paging.{
  Tables, Result, ok, err, overflow, create_mapping, zeroed_box, read_write_kernel,
}
use osdev_hikalium.X86.Paging.Tree.{leaf}
use osdev_hikalium.X86.Paging.Descend.{AreDistinct}
use osdev_hikalium.X86.Paging.Translate.{in_range, page_entry, create_mapping-Translates}
use osdev_hikalium.X86.Paging.New.{only_root, zeroed_box-IsTree, leaf-zeroed_box}
use osdev_hikalium.X86.Paging.Create.{AreAligned, Maps, create_mapping-Maps}
pub mod Runtime
mod Tests

-- `expect`, and what is written to `cr3`.
abbrev pub load_tables : ℕ → Result (Unit {0}) → Outcome (ℕ × Tables)
load_tables pml4 (ok done t) = Usize.ok (pml4, t)
load_tables pml4 (err e t) = panic
load_tables pml4 overflow = panic

-- The address that `cr3` gets, and the tables; `PML4::new` takes the next box.
unfoldable pub init_paging : (ℕ → ℕ) → List EfiMemoryDescriptor → Tables → Outcome (ℕ × Tables)
init_paging boxes es t =
    let pml4 = boxes t.boxed in
    let t = zeroed_box boxes t in
    Usize.◌>>=◌ (end_of_memory es)
      λ end. load_tables pml4 (create_mapping boxes pml4 0 end 0 read_write_kernel t)

-- When the boxes of tables are page-aligned words, every descriptor ends below 2 ^ 64 and the
-- regions start at multiples of 4096, init_paging does not panic: cr3 gets the address of the
-- first new box, and the tables are those of a successful create_mapping of the addresses from 0
-- to the end of memory.
init_paging-loads :
    (boxes : ℕ → ℕ) (es : List EfiMemoryDescriptor) (t : Tables)
    → AreAligned boxes
    → All Ends es
    → All (λ e. e.physical_start % 4096 ≡ 0) es
    → (end : ℕ) × (after : Tables) × (init_paging boxes es t ≡ Usize.ok (boxes t.boxed, after))
      × IsEnd 0x1_0000_0000 es end
      × (create_mapping boxes (boxes t.boxed) 0 end 0 read_write_kernel (zeroed_box boxes t)
          ≡ ok tt after)
unfolding init_paging
init_paging-loads boxes es t aligned fits starts =
    let r = end_of_memory-IsEnd es fits in
    let m =
      create_mapping-Maps boxes (boxes t.boxed) 0 r.0 0 read_write_kernel (zeroed_box boxes t)
        aligned (omega arith) in
    let last : r.0 ≤ word_mod - 1 =
      r.2.tight (word_mod - 1) (omega arith) (All-imp es (λ e h counts. omega (arith, h)) fits) in
    let mapped =
      m.succeeds (omega arith) (r.2.multiple (omega arith) starts) (omega arith)
        (omega (arith, last)) in
    (r.0, mapped.0, rw (r.1, mapped.1) refl, r.2, mapped.1)

identity :
    (end addr : ℕ) (old : ℕ)
    → (if in_range 0 end addr then page_entry 0 0 read_write_kernel addr else old)
      ≡ (if ltb addr end then bit_or (addr / 4096 * 4096) 3 else old)
identity end addr old =
    let none_off : 0 + addr / 4096 * 4096 - 0 ≡ addr / 4096 * 4096 = omega arith in
    rw none_off (ground arith)

-- When the boxes of tables are page-aligned and those that are needed differ, and all regions
-- start at multiples of 4096 and end at some bound of 4 GiB up to 2 ^ 48 at most, init_paging does
-- not panic, and with the tables that cr3 gets, each address below the end of memory has an entry
-- for its own page, present and writable, and all other addresses of 48 bits have none.
pub init_paging-Identity :
    (boxes : ℕ → ℕ) (limit bound : ℕ) (es : List EfiMemoryDescriptor) (t : Tables)
    → AreAligned boxes
    → AreDistinct boxes limit
    → 0x1_0000_0000 ≤ bound
    → bound ≤ 2 ^ 48
    → t.boxed + 1 + 3 * (bound / 4096) ≤ limit
    → All (λ e. e.physical_start + e.number_of_pages * 4096 ≤ bound) es
    → All (λ e. e.physical_start % 4096 ≡ 0) es
    → (end : ℕ) × (u : Tables) × (init_paging boxes es t ≡ Usize.ok (boxes t.boxed, u))
      × IsEnd 0x1_0000_0000 es end
      × ((addr : ℕ)
          → addr < 2 ^ 48
          → leaf u 3 (boxes t.boxed) addr
            ≡ (if ltb addr end then bit_or (addr / 4096 * 4096) 3 else 0))
unfolding init_paging
init_paging-Identity boxes limit bound es t aligned distinct least small room ends starts =
    let fits : All Ends es = All-imp es (λ e h. omega (arith, h, small)) ends in
    let r = end_of_memory-IsEnd es fits in
    let high : r.0 ≤ bound = r.2.tight bound least (All-imp es (λ e h counts. h) ends) in
    let whole : r.0 % 4096 ≡ 0 = r.2.multiple (omega arith) starts in
    let m =
      create_mapping-Translates boxes limit (boxes t.boxed) 0 r.0 0 read_write_kernel
        (only_root boxes limit t) (zeroed_box boxes t)
        (zeroed_box-IsTree boxes limit t aligned distinct) aligned distinct (omega (arith, high))
        (omega arith) (omega (arith, high)) (omega arith) whole (omega arith)
        (omega (arith, high)) in
    (
      r.0,
      m.1,
      rw (r.1, m.2) refl,
      r.2,
      λ addr h.
          m.3.leaves addr h
          ∙ identity r.0 addr (leaf (zeroed_box boxes t) 3 (boxes t.boxed) addr)
          ∙ ap (λ (w : ℕ). if ltb addr r.0 then bit_or (addr / 4096 * 4096) 3 else w)
              (leaf-zeroed_box boxes limit t addr),
    )
