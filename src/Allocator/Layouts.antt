-- ===== src/Allocator/Layouts.antt =====
-- How `provide` raises the size and the alignment of a valid layout.
use mathlib.Core.Option.{some-injective}
use osdev_hikalium.Prelude.{
  ℕ, ◌+◌, ◌*◌, ◌^◌, ◌%◌, ◌≤◌, ◌<◌, ◌≡◌, ◌⊎◌, ◌∙◌, sym, ap, some, arith, max,
}
use osdev_hikalium.Prelude.Bits.{pow_le_pow, lt_of_pow_lt}
use osdev_hikalium.Allocator.Pow2.{round_up_to_nearest_pow2, round_up_to_nearest_pow2_least}
use osdev_hikalium.Allocator.Memory.{Memory}
use osdev_hikalium.Allocator.Header.{provide, provide_rounded}
use osdev_hikalium.Allocator.FirstFit.{Layout}
use osdev_hikalium.Allocator.Address.{pow-mod_32}
use osdev_hikalium.Allocator.Request.{IsRequest}

-- What Rust documents of a `Layout` with a size above 0: the alignment is a power of two, and the
-- size rounded up to it is at most `isize::MAX`.
pub record IsLayout (layout : Layout) (j : ℕ) : Type 0 where
  pub power : layout.align ≡ 2 ^ j
  pub nonzero : 1 ≤ layout.size
  pub in_isize : layout.size + layout.align ≤ 2 ^ 63

-- The request that a layout comes to.
pub record Raises (layout : Layout) (j : ℕ) : Type 0 where
  pub size : ℕ
  pub exponent : ℕ
  pub request : IsRequest size exponent
  pub provides :
      (e : ℕ) (m : Memory)
      → provide e layout.size layout.align m ≡ provide_rounded e size (2 ^ exponent) m
  pub enough : layout.size ≤ size
  pub exact : (i : ℕ) → round_up_to_nearest_pow2 layout.size ≡ some i → size ≡ max i 32
  pub tight : (size < 2 * layout.size) ⊎ (size ≡ 32)
  pub coarser : j ≤ exponent
  pub finest : 2 ^ exponent ≤ layout.align + 32

max_pow : (j : ℕ) → max (2 ^ j) 32 ≡ 2 ^ max j 5
max_pow j = grind (arith, pow_le_pow j 5, pow_le_pow 5 j)

max_pow-mod_32 : (i : ℕ) → max (2 ^ i) 32 % 32 ≡ 0
max_pow-mod_32 i = omega (arith, max_pow i, pow-mod_32 1 (max i 5) (omega arith))

provide_raised :
    (layout : Layout) (i j : ℕ)
    → layout.align ≡ 2 ^ j
    → round_up_to_nearest_pow2 layout.size ≡ some (2 ^ i)
    → (e : ℕ) (m : Memory)
    → provide e layout.size layout.align m ≡ provide_rounded e (max (2 ^ i) 32) (2 ^ max j 5) m
unfolding provide
provide_raised layout i j align up e m = rw (provide, up, align, max_pow j)

-- A valid layout never makes `round_up_to_nearest_pow2` or the test of `can_provide` fail.
pub layout-Raises : (layout : Layout) (j : ℕ) → IsLayout layout j → Raises layout j
layout-Raises layout j valid =
    let up = round_up_to_nearest_pow2_least layout.size valid.nonzero (omega arith) in
    let i = up.0 in
    let short : j < 63 = lt_of_pow_lt j 63 (omega (arith, valid)) in
    record {
      size = max (2 ^ i) 32;
      exponent = max j 5;
      request = record {
        wide = omega arith;
        narrow = omega arith;
        least = omega arith;
        size_aligned = max_pow-mod_32 i;
        no_overflow =
            omega (
              arith,
              max_pow j,
              pow_le_pow i 63 (omega (arith, up)),
              pow_le_pow j 62 (omega arith),
            );
      };
      provides = λ e m. provide_raised layout i j valid.power up.1 e m;
      enough = omega (arith, up);
      exact = λ k e. ap (λ n. max n 32) (some-injective _ _ (sym up.1 ∙ e));
      tight = ground (arith, up.4);
      coarser = omega arith;
      finest = omega (arith, valid, max_pow j);
    }
