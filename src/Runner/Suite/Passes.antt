-- ===== src/Runner/Suite/Passes.antt =====
-- The test build of wasabi/src/lib.rs reports success on a machine with enough memory.
use osdev_hikalium.Prelude.{ℕ, ◌+◌, ◌*◌, ◌^◌, ◌≤◌, ◌≡◌, true, Option, some, List, [], ◌∷◌}
use osdev_hikalium.Allocator.Memory.{Memory}
use osdev_hikalium.Allocator.FirstFit.{Layout}
use osdev_hikalium.Allocator.Layouts.{IsLayout}
use osdev_hikalium.Allocator.Room.{demand}
use osdev_hikalium.Runner.{Testable}

-- A free region of this size is enough for the test cases, if vectors ask for `most` bytes at once
-- and `vector` is the layout of the vector of pointers.
abbrev pub total_demand : ℕ → Layout → ℕ
total_demand most vector = 15382482 + demand vector + 1000 * (2 * most + 129)

-- The five cases, each returning.
abbrev pub five_passed : List Testable
five_passed =
    record { name = 1; returns = true }
    ∷ record { name = 2; returns = true }
    ∷ record { name = 3; returns = true }
    ∷ record { name = 4; returns = true }
    ∷ record { name = 5; returns = true }
    ∷ []

-- What the libraries do for the test cases: `from_size_align` builds each layout that Rust documents as
-- valid, and vectors ask for valid layouts, those of bytes of at most `most`.
pub record Allocates (from_size_align : ℕ → ℕ → Option Layout) (requested : ℕ → Option Layout)
    (vector : Layout) (j most : ℕ) : Type 0 where
  pub builds :
      (size j : ℕ)
      → size + 2 ^ j ≤ 2 ^ 63
      → from_size_align size (2 ^ j) ≡ some (record { size = size; align = 2 ^ j })
  pub fits :
      (i : ℕ) (layout : Layout)
      → requested i ≡ some layout
      → IsLayout layout 0 × (layout.size ≤ most)
  pub vector_valid : IsLayout vector j
