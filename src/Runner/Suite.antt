-- ===== src/Runner/Suite.antt =====
-- The test build of wasabi/src/lib.rs: its `efi_main`, and the five test cases of the crate, which all stand
-- in wasabi/src/allocator.rs. A case runs on the memory that the one before it left.
pub mod Passes
mod Example
use osdev_hikalium.Prelude.{ℕ, true, false, Option, List, [], ◌∷◌}
use osdev_hikalium.Prelude.Usize.{Outcome, ok, panic, fault, out_of_fuel, ◌>>=◌}
use osdev_hikalium.Uefi.Types.{EfiMemoryDescriptor}
use osdev_hikalium.Uefi.Boot.{Firmware}
use osdev_hikalium.Allocator.Memory.{Cmd}
use osdev_hikalium.Allocator.FirstFit.{Layout}
use osdev_hikalium.Allocator.UnitTests.{
  round_up_to_nearest_pow2_tests, malloc_iterate_free_and_alloc, malloc_align,
  malloc_align_random_order,
}
use osdev_hikalium.Allocator.UnitTests.Overlap.{Ram, after_call, allocated_objects_have_no_overlap}
use osdev_hikalium.Init.Runtime.{Heap, init_basic_runtime}
use osdev_hikalium.Runner.{Testable, Report, test_runner}

pub record Case : Type 0 where
  pub name : ℕ
  pub body : Ram → Outcome Ram

-- A case that reads no bytes; those that it writes lie in blocks that it gives back or never reads.
abbrev pub on_headers : Cmd (Unit {0}) → Ram → Outcome Ram
on_headers body s = body s.headers >>= λ done. ok (after_call done.1 s)

-- The cases as the runner meets them: those after one that does not return never run, and one that runs
-- out of fuel is not counted as passed.
abbrev pub outcome_of : ℕ → Outcome Ram → (Ram → List Testable) → List Testable
outcome_of name (ok s) rest = record { name = name; returns = true } ∷ rest s
outcome_of name panic rest = record { name = name; returns = false } ∷ []
outcome_of name fault rest = record { name = name; returns = false } ∷ []
outcome_of name out_of_fuel rest = record { name = name; returns = false } ∷ []

unfoldable pub run_cases : List Case → Ram → List Testable
run_cases [] s = []
run_cases (c ∷ cs) s = outcome_of c.name (c.body s) (run_cases cs)

module _ (from_size_align : ℕ → ℕ → Option Layout) (requested : ℕ → Option Layout) (vector : Layout)
    (fuel : ℕ) where
  -- What the test framework collects.
  abbrev pub test_cases : Option ℕ → List Case
  test_cases first =
      record { name = 1; body = on_headers round_up_to_nearest_pow2_tests }
      ∷ record { name = 2; body = on_headers (malloc_iterate_free_and_alloc requested fuel first) }
      ∷ record { name = 3; body = on_headers (malloc_align from_size_align fuel first) }
      ∷ record {
        name = 4;
        body = on_headers (malloc_align_random_order from_size_align fuel first);
      }
      ∷ record {
        name = 5;
        body = allocated_objects_have_no_overlap fuel first from_size_align vector;
      }
      ∷ []

  -- `efi_main` of the test build, and the generated `run_unit_tests`.
  unfoldable pub test_efi_main :
      ℕ → ℕ → Firmware → (ℕ → EfiMemoryDescriptor) → Heap → (ℕ → Option ℕ) → Outcome Report
  test_efi_main rounds calls firmware zeros heap bytes =
      init_basic_runtime rounds calls firmware zeros heap >>= λ started. ok (
        test_runner
          (run_cases (test_cases started.0.0) (record { headers = started.0.1; bytes = bytes })))
