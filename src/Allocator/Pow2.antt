-- ===== src/Allocator/Pow2.antt =====
-- `round_up_to_nearest_pow2` of wasabi/src/allocator.rs.
use osdev_hikalium.Prelude.Bits.{lt_of_pow_lt}
use osdev_hikalium.Prelude.{
  ℕ, zero, suc, ◌-◌, ◌*◌, ◌^◌, ◌≤◌, ◌<◌, ◌≡◌, refl, ◌∙◌, ◌⊎◌, inl, inr, Option, none, some, arith,
}
use osdev_hikalium.Prelude.Usize.{
  wrapping_sub, leading_zeros, one_checked_shl, bit_length, bit_length_bounds, one_checked_shl-some,
  one_checked_shl-none,
}

-- `none` is `Err("Out of range")`, the only error of the function.
unfoldable pub round_up_to_nearest_pow2 : ℕ → Option ℕ
unfolding leading_zeros
round_up_to_nearest_pow2 v = one_checked_shl (64 - leading_zeros (wrapping_sub v 1))

digits_of_pred :
    (v : ℕ)
    → 1 ≤ v
    → v < 2 ^ 64
    → round_up_to_nearest_pow2 v ≡ one_checked_shl (bit_length 64 (v - 1))
unfolding round_up_to_nearest_pow2
digits_of_pred v pos word =
    let e : wrapping_sub v 1 ≡ v - 1 = omega arith in
    let L = bit_length_bounds 64 (v - 1) (omega arith) in
    let d : 64 - (64 - bit_length 64 (v - 1)) ≡ bit_length 64 (v - 1) = omega (arith, L) in
    rw (e, d)

pow-bit_length-lt : (a : ℕ) → a < 2 ^ 64 → 2 ^ bit_length 64 a < 2 * suc a
unfolding bit_length
pow-bit_length-lt zero h = omega arith
pow-bit_length-lt (suc a) h = omega (arith, (bit_length_bounds 64 (suc a) h).1 (omega arith))

-- From 1 to 2 ^ 63 round_up_to_nearest_pow2 succeeds with a power of two that is at least v and
-- below 2 * v, so it is the least one that is not below v.
pub round_up_to_nearest_pow2_least :
    (v : ℕ)
    → 1 ≤ v
    → v ≤ 2 ^ 63
    → (k : ℕ) × (round_up_to_nearest_pow2 v ≡ some (2 ^ k))
      × (k < 64)
      × (v ≤ 2 ^ k)
      × (2 ^ k < 2 * v)
round_up_to_nearest_pow2_least v pos small =
    let k = bit_length 64 (v - 1) in
    let L = bit_length_bounds 64 (v - 1) (omega arith) in
    let up : 2 ^ k < 2 * v = omega (arith, pow-bit_length-lt (v - 1) (omega arith)) in
    let fits : k < 64 = lt_of_pow_lt k 64 (omega arith) in
    (
      k,
      digits_of_pred v pos (omega arith) ∙ one_checked_shl-some k fits,
      fits,
      omega (arith, L),
      up,
    )

-- For 0 and for every word above 2 ^ 63 round_up_to_nearest_pow2 returns its error.
pub round_up_to_nearest_pow2_range :
    (v : ℕ) → (v ≡ 0) ⊎ (2 ^ 63 < v) → v < 2 ^ 64 → round_up_to_nearest_pow2 v ≡ none
unfolding round_up_to_nearest_pow2
round_up_to_nearest_pow2_range v (inl e) word = rw e
round_up_to_nearest_pow2_range v (inr large) word =
    let k = bit_length 64 (v - 1) in
    let L = bit_length_bounds 64 (v - 1) (omega arith) in
    let all : 63 < k = lt_of_pow_lt 63 k (omega (arith, L, large)) in
    digits_of_pred v (omega arith) word ∙ one_checked_shl-none k all

round_up_5 : round_up_to_nearest_pow2 5 ≡ some 8
unfolding round_up_to_nearest_pow2
round_up_5 = refl
