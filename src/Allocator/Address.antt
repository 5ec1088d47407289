-- ===== src/Allocator/Address.antt =====
-- The address that `provide` computes by masking, as arithmetic.
use osdev_hikalium.Prelude.{ℕ, ◌+◌, ◌-◌, ◌*◌, ◌/◌, ◌%◌, ◌^◌, ◌≤◌, ◌<◌, ◌≡◌, ◌∙◌, ap, bit_and, arith}
use osdev_hikalium.Prelude.Bits.{pow-mul-pow, bit_and_high, pow_le_pow, pred_mul}
use osdev_hikalium.Prelude.Usize.{ok, word_mod, not_word}
use osdev_hikalium.Allocator.Memory.{Header}
use osdev_hikalium.Allocator.Header.{allocated_addr}

word_split : (k : ℕ) → k ≤ 64 → 2 ^ (64 - k) * 2 ^ k ≡ word_mod
word_split k h = let e : 64 - k + k ≡ 64 = omega arith in pow-mul-pow (64 - k) k ∙ (rw e)

-- `& !(align - 1)` rounds down to a multiple of `align`.
pub round_down :
    (k x : ℕ) → k ≤ 64 → x < word_mod → bit_and x (not_word (2 ^ k - 1)) ≡ x / 2 ^ k * 2 ^ k
round_down k x h hx =
    let mask : not_word (2 ^ k - 1) ≡ (2 ^ (64 - k) - 1) * 2 ^ k = omega (
      arith,
      word_split k h,
      pow_le_pow k 64 h,
      pow_le_pow 0 k (omega arith),
      pred_mul (2 ^ (64 - k)) (2 ^ k) (pow_le_pow 0 (64 - k) (omega arith)),
    ) in
    rw mask (bit_and_high (64 - k) k x (rw (word_split k h) hx))

pub allocated_addr_lem :
    (self size k : ℕ) (h : Header)
    → k ≤ 63
    → size ≤ self + h.size
    → self + h.size < word_mod
    → allocated_addr self h size (2 ^ k) ≡ ok ((self + h.size - size) / 2 ^ k * 2 ^ k)
unfolding allocated_addr
allocated_addr_lem self size k h hk fits space =
    rw (← round_down k (self + h.size - size) (omega arith) (omega arith))
      (ground (arith, pow_le_pow 0 k))

-- A multiple of a power of two from 32 on is a multiple of 32.
pub pow-mod_32 : (q k : ℕ) → 5 ≤ k → q * 2 ^ k % 32 ≡ 0
pow-mod_32 q k h =
    let e : 5 + (k - 5) ≡ k = omega arith in
    let split : 32 * 2 ^ (k - 5) ≡ 2 ^ k = pow-mul-pow 5 (k - 5) ∙ (rw e) in
    omega (arith, ap (λ (t : ℕ). q * t) split)
