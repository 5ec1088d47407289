-- ===== src/Prelude/Usize.antt =====
-- `usize` and `u64` values as numbers below 2 ^ 64, with the operations of Rust's core library. The
-- build is the `dev` profile of Cargo, in which `+` and `-` panic where they leave the range.
use Prim.Native.Nat.{ℕ, zero, suc, ◌+◌, ◌-◌, ◌*◌, ◌/◌, ◌%◌, ◌^◌, ◌≤◌, ◌<◌}
use mathlib.Core.Path.{◌≡◌, refl}
use mathlib.Core.Option.{Option, none, some}
use native.Mathlib.Nat.{pow-suc}
use native.Mathlib.Omega.{arith}
use osdev_hikalium.Prelude.Tests.{ltb, leb, if◌then◌else◌}

-- `2 ^ 64`.
abbrev pub word_mod : ℕ
word_mod = 2 ^ 64

-- `panic` is a Rust panic, and `fault` is what Rust leaves undefined, such as a reference made from
-- an address where no object of its type was written. `out_of_fuel` is a loop that took more rounds
-- than the model was given.
pub data Outcome {ℓ} (A : Type ℓ) : Type ℓ where
  ok : A → Outcome A
  panic fault out_of_fuel : Outcome A

infixl 5 ◌>>=◌
abbrev pub ◌>>=◌ {ℓ κ} : {A : Type ℓ} {B : Type κ} → Outcome A → (A → Outcome B) → Outcome B
ok a >>= f = f a
panic >>= f = panic
fault >>= f = fault
out_of_fuel >>= f = out_of_fuel

abbrev pub checked_add : ℕ → ℕ → Outcome ℕ
checked_add a b = if ltb (a + b) word_mod then ok (a + b) else panic

abbrev pub checked_sub : ℕ → ℕ → Outcome ℕ
checked_sub a b = if leb b a then ok (a - b) else panic

-- `!a`.
abbrev pub not_word : ℕ → ℕ
not_word a = word_mod - 1 - a

abbrev pub wrapping_sub : ℕ → ℕ → ℕ
wrapping_sub a b = (a + word_mod - b) % word_mod

-- `a.saturating_sub(b)`, the subtraction of ℕ.
abbrev pub saturating_sub : ℕ → ℕ → ℕ
saturating_sub a b = a - b

-- How many binary digits a word has: with n rounds, right below 2 ^ n.
unfoldable pub bit_length : ℕ → ℕ → ℕ
bit_length zero a = 0
bit_length (suc n) zero = 0
bit_length (suc n) (suc a) = suc (bit_length n (suc a / 2))

unfoldable pub leading_zeros : ℕ → ℕ
unfolding bit_length
leading_zeros a = 64 - bit_length 64 a

-- `1usize.checked_shl(n)`: no value from the width on.
abbrev pub one_checked_shl : ℕ → Option ℕ
one_checked_shl n = if ltb n 64 then some (2 ^ n) else none

pub one_checked_shl-some : (n : ℕ) → n < 64 → one_checked_shl n ≡ some (2 ^ n)
one_checked_shl-some n h = ground arith

pub one_checked_shl-none : (n : ℕ) → 63 < n → one_checked_shl n ≡ none
one_checked_shl-none n h = ground arith

bit_length-zero : (n : ℕ) → bit_length n 0 ≡ 0
unfolding bit_length
bit_length-zero zero = refl
bit_length-zero (suc n) = refl

-- `bit_length n a` is the least number of digits that hold a.
pub bit_length_bounds :
    (n a : ℕ)
    → a < 2 ^ n
    → (a < 2 ^ bit_length n a) × (0 < a → 2 ^ bit_length n a ≤ 2 * a) × (bit_length n a ≤ n)
unfolding bit_length
bit_length_bounds zero a h = omega arith
bit_length_bounds (suc n) zero h = omega arith
bit_length_bounds (suc n) (suc zero) h = rw bit_length-zero (omega arith)
bit_length_bounds (suc n) (suc (suc a)) h =
    let half = suc (suc a) / 2 in
    let ih = bit_length_bounds n half (omega (arith, pow-suc 2 n)) in
    omega (arith, ih, ih.1 (omega arith), pow-suc 2 (bit_length n half))
