-- ===== src/X86/Show/Example.antt =====
-- What wasabi/src/x86.rs prints of entries and tables, at concrete ones.
use osdev_hikalium.Prelude.{◌≡◌, refl, ◌==◌, if◌then◌else◌, arith}
use osdev_hikalium.Print.Format.{codes, decimal, lower_hex, upper_hex, radix_digits}
use osdev_hikalium.X86.Paging.{Tables}
use osdev_hikalium.X86.Show.{format_entry, format_entries}
use osdev_hikalium.X86.Show.Read.{read_entry, format_entry-Reads}

entry_text :
    format_entry 1 0x20_0008 0x1003
    ≡ codes "L1Entry @ 0x0000000000200008 { 000000000000001003 PWS }"
unfolding format_entry decimal lower_hex upper_hex radix_digits
entry_text = refl

-- A table with one present entry.
abbrev tables : Tables
tables = record { mem = λ a. if a == 0x20_0008 then 0x1003 else 0; boxed = 0 }

table_text :
    format_entries 1 tables 0x20_0000 0 3
    ≡ codes " entry[  1] = L1Entry @ 0x0000000000200008 { 000000000000001003 PWS }\n"
unfolding format_entries format_entry decimal lower_hex upper_hex radix_digits
table_text = refl

format_entry-Reads_example :
    read_entry (format_entry 1 0x20_0008 0x1003)
    ≡ record { level = 1; address = 0x20_0008; value = 0x1003; flags = codes "PWS" }
format_entry-Reads_example =
    format_entry-Reads 1 0x20_0008 0x1003 (omega arith) (omega arith) (omega arith)
