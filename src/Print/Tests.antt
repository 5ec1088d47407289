-- ===== src/Print/Tests.antt =====
-- The theorem about the dump, at 17 bytes.
use osdev_hikalium.Prelude.{◌≡◌, refl, [], ◌∷◌, ◌++◌, replicate, arith}
use osdev_hikalium.Prelude.Usize.{ok}
use osdev_hikalium.Print.{hexdump_bytes}
use osdev_hikalium.Print.Hexdump.{concat, lines, hexdump_bytes-lines}

hexdump_bytes-lines_example :
    hexdump_bytes (concat (replicate 16 0x41 ∷ []) ++ (0x7f ∷ []))
    ≡ ok (lines 0 (replicate 16 0x41 ∷ []) (0x7f ∷ []))
hexdump_bytes-lines_example =
    hexdump_bytes-lines (replicate 16 0x41 ∷ []) (0x7f ∷ []) (refl, tt) (omega arith) (omega arith)
