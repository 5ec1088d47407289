-- ===== src/Allocator/UnitTests/Run.antt =====
-- The unit tests pass on a heap with enough room.
use osdev_hikalium.Prelude.{
  ℕ, zero, suc, ◌+◌, ◌*◌, ◌^◌, ◌≤◌, ◌≡◌, refl, Option, none, some, List, [], ◌∷◌, leb, true, All,
  length, arith,
}
use osdev_hikalium.Prelude.Usize.{Outcome, ok}
use osdev_hikalium.Allocator.Memory.{Memory}
use osdev_hikalium.Allocator.FirstFit.{Layout}
use osdev_hikalium.Allocator.Layouts.{IsLayout}
use osdev_hikalium.Allocator.Room.{IsReady, IsReady_less, alloc_with_options-Gets}
use osdev_hikalium.Allocator.UnitTests.{
  fill_pointers, for_aligns, malloc_align, malloc_align_random_order, resize_and_drop, for_lengths,
  malloc_iterate_free_and_alloc,
}

-- `out` is a normal return of memory that is ready.
pub record Passes {A : Type 0} (first : Option ℕ) (fuel n requests : ℕ) (out : Outcome (A × Memory))
    : Type 0 where
  pub value : A
  pub memory : Memory
  pub returns : out ≡ ok (value, memory)
  pub ready : IsReady first fuel n requests memory

module _ (from_size_align : ℕ → ℕ → Option Layout) (fuel : ℕ) (first : Option ℕ) where
  module _ (align j : ℕ)
      (built : from_size_align 1234 align ≡ some (record { size = 1234; align = align }))
      (power : align ≡ 2 ^ j) (small : align ≤ 4096) where
    fill_pointers-Passes :
        (count n requests : ℕ) (m : Memory)
        → IsReady first fuel (n + count * 6692) (requests + count) m
        → Passes first fuel n requests (fill_pointers from_size_align fuel first align count m)
    unfolding fill_pointers
    fill_pointers-Passes zero n requests m ready = record {
      value = [];
      memory = m;
      returns = refl;
      ready = IsReady_less n _ requests _ (omega arith) (omega arith) ready;
    }
    fill_pointers-Passes (suc count) n requests m ready =
        let got =
          alloc_with_options-Gets (record { size = 1234; align = align }) j fuel (n + count * 6692)
            (requests + count) m first
            (record { power = power; nonzero = omega arith; in_isize = omega arith })
            (IsReady_less _ _ _ _ (omega arith) (omega arith) ready) in
        let rest = fill_pointers-Passes count n requests got.memory got.ready in
        record {
          value = got.pointer ∷ rest.value;
          memory = rest.memory;
          returns = ground (arith, built, got.returns, got.above, got.aligned, rest.returns);
          ready = rest.ready;
        }

  -- What the libraries make of an alignment, and that it is a power of two up to 4096.
  abbrev pub IsBuilt : ℕ → Type 0
  IsBuilt align =
      (j : ℕ) × (from_size_align 1234 align ≡ some (record { size = 1234; align = align }))
      × (align ≡ 2 ^ j)
      × (align ≤ 4096)

  for_aligns-Passes :
      (aligns : List ℕ) (n requests : ℕ) (m : Memory)
      → All IsBuilt aligns
      → IsReady first fuel (n + length aligns * 669200) (requests + length aligns * 100) m
      → Passes first fuel n requests (for_aligns from_size_align fuel first aligns m)
  unfolding for_aligns
  for_aligns-Passes [] n requests m built ready = record {
    value = tt;
    memory = m;
    returns = refl;
    ready = IsReady_less n _ requests _ (omega arith) (omega arith) ready;
  }
  for_aligns-Passes (align ∷ aligns) n requests m built ready =
      let filled =
        fill_pointers-Passes align built.0.0 built.0.1 built.0.2 built.0.3 100
          (n + length aligns * 669200) (requests + length aligns * 100) m
          (IsReady_less _ _ _ _ (omega arith) (omega arith) ready) in
      let rest = for_aligns-Passes aligns n requests filled.memory built.1 filled.ready in
      record {
        value = tt;
        memory = rest.memory;
        returns = rw filled.returns rest.returns;
        ready = rest.ready;
      }

module _ (requested : ℕ → Option Layout) (fuel : ℕ) (first : Option ℕ) (most : ℕ)
    (fits : (i : ℕ) (layout : Layout)
      → requested i ≡ some layout
      → IsLayout layout 0 × (layout.size ≤ most)) where
  resize_and_drop-Passes :
      (i n requests : ℕ) (m : Memory) (asked : Option Layout)
      → requested i ≡ asked
      → IsReady first fuel (n + (2 * most + 129)) (requests + 1) m
      → Passes first fuel n requests (resize_and_drop requested fuel first i m)
  unfolding resize_and_drop
  resize_and_drop-Passes i n requests m none e ready = record {
    value = tt;
    memory = m;
    returns = rw (e, resize_and_drop) refl;
    ready = IsReady_less n _ requests _ (omega arith) (omega arith) ready;
  }
  resize_and_drop-Passes i n requests m (some layout) e ready =
      let valid = fits i layout e in
      let got =
        alloc_with_options-Gets layout 0 fuel n requests m first valid.0
          (IsReady_less _ _ _ _ (omega (arith, valid.0.power, valid.1)) (omega arith) ready) in
      record {
        value = tt;
        memory = got.frees.memory;
        returns = ground (arith, e, got.returns, got.frees.returns);
        ready = got.frees.ready;
      }

  for_lengths-Passes :
      (i count n requests : ℕ) (m : Memory)
      → IsReady first fuel (n + count * (2 * most + 129)) (requests + count) m
      → Passes first fuel n requests (for_lengths requested fuel first i count m)
  unfolding for_lengths
  for_lengths-Passes i zero n requests m ready = record {
    value = tt;
    memory = m;
    returns = refl;
    ready = IsReady_less n _ requests _ (omega arith) (omega arith) ready;
  }
  for_lengths-Passes i (suc count) n requests m ready =
      let one =
        resize_and_drop-Passes i (n + count * (2 * most + 129)) (requests + count) m (requested i)
          refl (IsReady_less _ _ _ _ (grind arith) (omega arith) ready) in
      let rest = for_lengths-Passes (i + 1) count n requests one.memory one.ready in
      record {
        value = tt;
        memory = rest.memory;
        returns = ground (arith, one.returns, rest.returns);
        ready = rest.ready;
      }

pub malloc_iterate_free_and_alloc-Passes :
    (requested : ℕ → Option Layout) (fuel : ℕ) (first : Option ℕ) (most n requests : ℕ) (m : Memory)
    → ((i : ℕ) (layout : Layout)
        → requested i ≡ some layout
        → IsLayout layout 0 × (layout.size ≤ most))
    → IsReady first fuel (n + 1000 * (2 * most + 129)) (requests + 1000) m
    → Passes first fuel n requests (malloc_iterate_free_and_alloc requested fuel first m)
unfolding malloc_iterate_free_and_alloc
malloc_iterate_free_and_alloc-Passes requested fuel first most n requests m fits ready =
    for_lengths-Passes requested fuel first most fits 0 1000 n requests m ready

module _ (from_size_align : ℕ → ℕ → Option Layout)
    (builds : (size j : ℕ)
      → size + 2 ^ j ≤ 2 ^ 63
      → from_size_align size (2 ^ j) ≡ some (record { size = size; align = 2 ^ j }))
    (fuel : ℕ) (first : Option ℕ) (n requests : ℕ) (m : Memory)
    (ready : IsReady first fuel (n + 4684400) (requests + 700) m) where
  built : (j : ℕ) → leb (2 ^ j) 4096 ≡ true → IsBuilt from_size_align fuel first (2 ^ j)
  built j small = (j, builds 1234 j (ground (arith, small)), refl, ground (arith, small))

  pub malloc_align-Passes : Passes first fuel n requests (malloc_align from_size_align fuel first m)
  unfolding malloc_align
  malloc_align-Passes =
      for_aligns-Passes from_size_align fuel first (1 ∷ 2 ∷ 4 ∷ 8 ∷ 16 ∷ 32 ∷ 4096 ∷ []) n requests
        m
        (
          built 0 refl,
          (
            built 1 refl,
            (built 2 refl, (built 3 refl, (built 4 refl, (built 5 refl, (built 12 refl, tt))))),
          ),
        )
        ready

  pub malloc_align_random_order-Passes :
      Passes first fuel n requests (malloc_align_random_order from_size_align fuel first m)
  unfolding malloc_align_random_order
  malloc_align_random_order-Passes =
      for_aligns-Passes from_size_align fuel first (32 ∷ 4096 ∷ 8 ∷ 4 ∷ 16 ∷ 2 ∷ 1 ∷ []) n requests
        m
        (
          built 5 refl,
          (
            built 12 refl,
            (built 3 refl, (built 2 refl, (built 4 refl, (built 1 refl, (built 0 refl, tt))))),
          ),
        )
        ready
