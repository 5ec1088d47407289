-- ===== src/X86/Paging/Tests.antt =====
-- The theorems about the page tables of wasabi/src/x86.rs, at a new table.
use osdev_hikalium.Prelude.{ℕ, ◌+◌, ◌*◌, ◌%◌, ◌≡◌, refl, arith}
use osdev_hikalium.X86.Paging.{
  Tables, ok, calc_index, create_mapping, descend, read_write_io, zeroed_box,
}
use osdev_hikalium.X86.Paging.Create.{AreAligned}
use osdev_hikalium.X86.Paging.Tree.{Places}
use osdev_hikalium.X86.Paging.Descend.{AreDistinct}
use osdev_hikalium.X86.Paging.Level.{Descends, descend-Descends}
use osdev_hikalium.X86.Paging.Translate.{
  in_range, page_entry, Translates, create_mapping-Translates,
}
use osdev_hikalium.X86.Paging.New.{only_root, zeroed_box-IsTree}

abbrev boxes : ℕ → ℕ
boxes i = 0x200000 + i % 1024 * 0x1000

boxes-AreAligned : AreAligned boxes
boxes-AreAligned i = (omega arith, omega arith)

boxes-AreDistinct : AreDistinct boxes 1024
boxes-AreDistinct i j h k e = omega arith

abbrev tables : Tables
tables = record { mem = λ a. 0; boxed = 0 }

descend-Descends_example :
    (x : ℕ) × (after : Places) × (u : Tables) × (descend boxes 39 0x12345000 0x200000
        (zeroed_box boxes tables)
      ≡ ok x u)
    × Descends boxes 1024 0x200000
        (only_root boxes 1024 tables)
        (zeroed_box boxes tables)
        0x200000
        2
        0
        (calc_index 39 0x12345000)
        x
        after
        u
descend-Descends_example =
    descend-Descends boxes 1024 0x200000 39 0x12345000 0x200000 2 0 (only_root boxes 1024 tables)
      (zeroed_box boxes tables)
      (zeroed_box-IsTree boxes 1024 tables boxes-AreAligned boxes-AreDistinct) boxes-AreAligned
      boxes-AreDistinct (omega arith) refl

create_mapping-Translates_example :
    (after : Places) × (u : Tables) × (create_mapping boxes 0x200000 0x40000000 0x40003000 0x7000
        read_write_io
        (zeroed_box boxes tables)
      ≡ ok tt u)
    × Translates boxes 1024 0x200000
        (in_range 0x40000000 0x40003000)
        (page_entry 0x40000000 0x7000 read_write_io)
        (zeroed_box boxes tables)
        after
        u
create_mapping-Translates_example =
    create_mapping-Translates boxes 1024 0x200000 0x40000000 0x40003000 0x7000 read_write_io
      (only_root boxes 1024 tables) (zeroed_box boxes tables)
      (zeroed_box-IsTree boxes 1024 tables boxes-AreAligned boxes-AreDistinct) boxes-AreAligned
      boxes-AreDistinct (omega arith) (omega arith) (omega arith) refl refl refl (omega arith)
