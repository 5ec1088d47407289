-- ===== src/Allocator/UnitTests.antt =====
-- The unit tests of wasabi/src/allocator.rs that ask the allocator for memory. They end in a panic when an
-- assertion fails. Of the libraries, `from_size_align` stands for `Layout::from_size_align`, and
-- `requested i` for the layout of the one request that `Vec::resize` makes to reach a length of i, none
-- where it makes none.
pub mod Run
pub mod Overlap
mod Example
use osdev_hikalium.Prelude.{
  ℕ, zero, suc, ◌+◌, ◌%◌, Bool, true, false, not, Option, none, some, List, [], ◌∷◌, ◌==◌,
  if◌then◌else◌,
}
use osdev_hikalium.Prelude.Usize.{panic}
use osdev_hikalium.Allocator.Memory.{Cmd, pure, lift, ◌>>=◌, ◌>>◌}
use osdev_hikalium.Allocator.Pow2.{round_up_to_nearest_pow2}
use osdev_hikalium.Allocator.FirstFit.{Layout, alloc_with_options, dealloc}

abbrev pub assert : Bool → Cmd (Unit {0})
assert b = if b then pure tt else lift panic

abbrev pub expect : {A : Type 0} → Option A → Cmd A
expect none = lift panic
expect (some a) = pure a

-- The test of `assert_eq!`, where `none` is the one error.
abbrev pub same : Option ℕ → Option ℕ → Bool
same none none = true
same none (some b) = false
same (some a) none = false
same (some a) (some b) = a == b

-- `p as usize`, where the null pointer is 0.
abbrev pub address : Option ℕ → ℕ
address none = 0
address (some p) = p

module _ (from_size_align : ℕ → ℕ → Option Layout) (fuel : ℕ) (first_header : Option ℕ) where
  -- The loop over the last `n` of the pointers, with their addresses as the result.
  unfoldable pub fill_pointers : ℕ → ℕ → Cmd (List ℕ)
  fill_pointers align zero = pure []
  fill_pointers align (suc n) = do
    layout ← expect (from_size_align 1234 align)
    e ← alloc_with_options fuel first_header layout
    assert (not (address e == 0))
    assert (address e % align == 0)
    es ← fill_pointers align n
    pure (address e ∷ es)

  -- The loop over the alignments. The pointers of one round are written over in the next.
  unfoldable pub for_aligns : List ℕ → Cmd (Unit {0})
  for_aligns [] = pure tt
  for_aligns (align ∷ aligns) = fill_pointers align 100 >>= λ _. for_aligns aligns

  unfoldable pub malloc_align : Cmd (Unit {0})
  malloc_align = for_aligns (1 ∷ 2 ∷ 4 ∷ 8 ∷ 16 ∷ 32 ∷ 4096 ∷ [])

  unfoldable pub malloc_align_random_order : Cmd (Unit {0})
  malloc_align_random_order = for_aligns (32 ∷ 4096 ∷ 8 ∷ 4 ∷ 16 ∷ 2 ∷ 1 ∷ [])

module _ (requested : ℕ → Option Layout) (fuel : ℕ) (first_header : Option ℕ) where
  -- A vector that is resized to a length and dropped at the end of its scope. Where there is no
  -- memory, the libraries panic.
  unfoldable pub resize_and_drop : ℕ → Cmd (Unit {0})
  resize_and_drop i = elim (requested i) [
    | none ↦ pure tt
    | some layout ↦
        alloc_with_options fuel first_header layout
        >>= elim [ none ↦ lift panic | some p ↦ dealloc p ]
  ]

  -- The lengths from i on, n of them.
  unfoldable pub for_lengths : ℕ → ℕ → Cmd (Unit {0})
  for_lengths i zero = pure tt
  for_lengths i (suc n) = resize_and_drop i >>= λ _. for_lengths (i + 1) n

  unfoldable pub malloc_iterate_free_and_alloc : Cmd (Unit {0})
  malloc_iterate_free_and_alloc = for_lengths 0 1000

-- The results that the first test of the file asserts.
unfoldable pub round_up_to_nearest_pow2_tests : Cmd (Unit {0})
round_up_to_nearest_pow2_tests = do
  assert (same (round_up_to_nearest_pow2 0) none)
  assert (same (round_up_to_nearest_pow2 1) (some 1))
  assert (same (round_up_to_nearest_pow2 2) (some 2))
  assert (same (round_up_to_nearest_pow2 3) (some 4))
  assert (same (round_up_to_nearest_pow2 4) (some 4))
  assert (same (round_up_to_nearest_pow2 5) (some 8))
  assert (same (round_up_to_nearest_pow2 6) (some 8))
  assert (same (round_up_to_nearest_pow2 7) (some 8))
  assert (same (round_up_to_nearest_pow2 8) (some 8))
  assert (same (round_up_to_nearest_pow2 9) (some 16))
