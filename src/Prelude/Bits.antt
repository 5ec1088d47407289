-- ===== src/Prelude/Bits.antt =====
-- `&` and `|` of machine words as arithmetic, at every width. The native operations stand for a
-- recursion on binary digits with fuel; the first lemmas drop the fuel.
use Prim.Native.Nat.{
  ℕ, zero, suc, ◌+◌, ◌-◌, ◌*◌, ◌/◌, ◌%◌, ◌^◌, ◌≤◌, ◌<◌, min, max, digits, bit_and, bit_or,
  bit_and-bitwise, bit_or-bitwise,
}
use Prim.Native.Nat.add
use mathlib.Core.Path.{◌≡◌, refl, ap}
use native.Mathlib.Nat.{pow-suc, pow-le-pow_right, one-le-pow, mod-eq_of_lt, div-lt_iff_lt-mul}
use native.Mathlib.Omega.{arith}

module _ (rest : ℕ → ℕ) (op : ℕ → ℕ → ℕ) where
  -- Fuel past the number itself is not used.
  digits_enough : (a b f g : ℕ) → a ≤ f → a ≤ g → digits rest op f a b ≡ digits rest op g a b
  digits_enough zero b zero zero hf hg = refl
  digits_enough zero b zero (suc g) hf hg = refl
  digits_enough zero b (suc f) zero hf hg = refl
  digits_enough zero b (suc f) (suc g) hf hg = refl
  digits_enough (suc a) b zero g hf hg = elim hf [ ]
  digits_enough (suc a) b (suc f) zero hf hg = elim hg [ ]
  digits_enough (suc a) b (suc f) (suc g) hf hg =
      rw (digits_enough (suc a / 2) (b / 2) f g (omega arith) (omega arith))

-- The lowest digit and the rest.
bit_and_digit : (a b : ℕ) → bit_and a b ≡ 2 * bit_and (a / 2) (b / 2) + min (a % 2) (b % 2)
bit_and_digit zero b = omega (arith, bit_and-bitwise 0 b, bit_and-bitwise 0 (b / 2))
bit_and_digit (suc a) b = omega (
  arith,
  bit_and-bitwise (suc a) b,
  bit_and-bitwise (suc a / 2) (b / 2),
  digits_enough (λ _. 0) min (suc a / 2) (b / 2) a (suc a / 2) (omega arith) (omega arith),
)

bit_or_digit : (a b : ℕ) → bit_or a b ≡ 2 * bit_or (a / 2) (b / 2) + max (a % 2) (b % 2)
bit_or_digit zero b = omega (arith, bit_or-bitwise 0 b, bit_or-bitwise 0 (b / 2))
bit_or_digit (suc a) b = omega (
  arith,
  bit_or-bitwise (suc a) b,
  bit_or-bitwise (suc a / 2) (b / 2),
  digits_enough (λ y. y) max (suc a / 2) (b / 2) a (suc a / 2) (omega arith) (omega arith),
)

bit_and_zero_below : (n a : ℕ) → a ≤ n → bit_and a 0 ≡ 0
bit_and_zero_below n zero h = refl
bit_and_zero_below zero (suc a) h = elim h [ ]
bit_and_zero_below (suc n) (suc a) h =
    omega (arith, bit_and_digit (suc a) 0, bit_and_zero_below n (suc a / 2) (omega arith))

pub bit_and-zero : (a : ℕ) → bit_and a 0 ≡ 0
bit_and-zero a = bit_and_zero_below a a (omega arith)

bit_or_zero_below : (n a : ℕ) → a ≤ n → bit_or a 0 ≡ a
bit_or_zero_below n zero h = refl
bit_or_zero_below zero (suc a) h = elim h [ ]
bit_or_zero_below (suc n) (suc a) h =
    omega (arith, bit_or_digit (suc a) 0, bit_or_zero_below n (suc a / 2) (omega arith))

pub bit_or-zero : (a : ℕ) → bit_or a 0 ≡ a
bit_or-zero a = bit_or_zero_below a a (omega arith)

-- Powers of two compare as their exponents do.
pub pow_le_pow : (i j : ℕ) → i ≤ j → 2 ^ i ≤ 2 ^ j
pow_le_pow i j h = pow-le-pow_right (omega arith) h

pub lt_of_pow_lt : (i j : ℕ) → 2 ^ i < 2 ^ j → i < j
lt_of_pow_lt i j h = grind (arith, pow_le_pow j i)

pub pow-mul-pow : (i j : ℕ) → 2 ^ i * 2 ^ j ≡ 2 ^ (i + j)
pow-mul-pow zero j = ground arith
pow-mul-pow (suc i) j = ground (
  arith,
  ap (λ (t : ℕ). t * 2 ^ j) (pow-suc 2 i),
  pow-suc 2 (i + j),
  pow-mul-pow i j,
  ap (λ (t : ℕ). 2 ^ t) (add.suc i j),
)

pub pred_mul : (a b : ℕ) → 0 < a → (a - 1) * b ≡ a * b - b
pred_mul zero b h = elim h [ ]
pred_mul (suc a) b h = let e : suc a - 1 ≡ a = omega arith in rw e (omega arith)

mul_two_pow_suc : (q k : ℕ) → q * 2 ^ suc k ≡ 2 * (q * 2 ^ k)
mul_two_pow_suc q k = omega (arith, ap (λ (t : ℕ). q * t) (pow-suc 2 k))

-- Or of a field above bit k and one below it is their sum.
pub bit_or_disjoint : (k q r : ℕ) → r < 2 ^ k → bit_or (q * 2 ^ k) r ≡ q * 2 ^ k + r
bit_or_disjoint zero q r h = ground (arith, bit_or-zero q)
bit_or_disjoint (suc k) q r h = ground (
  arith,
  bit_or_digit (q * 2 ^ suc k) r,
  mul_two_pow_suc q k,
  bit_or_disjoint k q (r / 2) (omega (arith, pow-suc 2 k)),
)

-- Masks against a word that is split at bit k.
bit_and_low_split : (k q r : ℕ) → r < 2 ^ k → bit_and (q * 2 ^ k + r) (2 ^ k - 1) ≡ r
bit_and_low_split zero q r h = rw bit_and-zero (omega arith)
bit_and_low_split (suc k) q r h = ground (
  arith,
  bit_and_digit (q * 2 ^ suc k + r) (2 ^ suc k - 1),
  mul_two_pow_suc q k,
  pow-suc 2 k,
  one-le-pow k 2,
  bit_and_low_split k q (r / 2) (omega (arith, pow-suc 2 k)),
)

bit_and_high_split :
    (m k q r : ℕ) → r < 2 ^ k → bit_and (q * 2 ^ k + r) (m * 2 ^ k) ≡ bit_and q m * 2 ^ k
bit_and_high_split m zero q r h = ground (arith, q * 1, m * 1)
bit_and_high_split m (suc k) q r h = ground (
  arith,
  bit_and_digit (q * 2 ^ suc k + r) (m * 2 ^ suc k),
  mul_two_pow_suc q k,
  mul_two_pow_suc m k,
  mul_two_pow_suc (bit_and q m) k,
  bit_and_high_split m k q (r / 2) (omega (arith, pow-suc 2 k)),
)

-- A mask of the k low bits is the remainder by 2 ^ k.
pub bit_and_low : (k a : ℕ) → bit_and a (2 ^ k - 1) ≡ a % 2 ^ k
bit_and_low k a = ground (arith, one-le-pow k 2, bit_and_low_split k (a / 2 ^ k) (a % 2 ^ k))

-- A mask that is a multiple of 2 ^ k clears the low bits and masks the others.
pub bit_and_shifted : (m k a : ℕ) → bit_and a (m * 2 ^ k) ≡ bit_and (a / 2 ^ k) m * 2 ^ k
bit_and_shifted m k a =
    ground (arith, one-le-pow k 2, bit_and_high_split m k (a / 2 ^ k) (a % 2 ^ k))

-- Testing one bit.
pub bit_and_single : (k a : ℕ) → bit_and a (2 ^ k) ≡ a / 2 ^ k % 2 * 2 ^ k
bit_and_single k a = ground (arith, bit_and_shifted 1 k a, bit_and_low 1 (a / 2 ^ k))

pub div_lt : (m k a : ℕ) → a < m * 2 ^ k → a / 2 ^ k < m
div_lt m k a h = (div-lt_iff_lt-mul (one-le-pow k 2 (omega arith))).1 h

-- Masking a word of w + k bits by all the bits from k up rounds it down.
pub bit_and_high :
    (w k a : ℕ) → a < 2 ^ w * 2 ^ k → bit_and a ((2 ^ w - 1) * 2 ^ k) ≡ a / 2 ^ k * 2 ^ k
bit_and_high w k a h = ground (
  arith,
  bit_and_shifted (2 ^ w - 1) k a,
  bit_and_low w (a / 2 ^ k),
  mod-eq_of_lt (div_lt (2 ^ w) k a h),
)
