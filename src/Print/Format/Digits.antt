-- ===== src/Print/Format/Digits.antt =====
-- The digits of a number can be read back.
use native.Mathlib.Nat.{pow-suc, pow-zero, div-lt_iff_lt-mul, div-add-mod', mod-lt}
use osdev_hikalium.Prelude.{
  ℕ, zero, suc, ◌+◌, ◌-◌, ◌*◌, ◌/◌, ◌%◌, ◌^◌, ◌≤◌, ◌<◌, ◌≡◌, refl, ap, ◌∙◌, inl, inr, Bool-cases,
  ltb, if◌then◌else◌, [], ◌∷◌, ◌++◌, replicate, arith,
}
use osdev_hikalium.Print.{hex_digit}
use osdev_hikalium.Print.Format.{Text, radix_digits, lower_hex_digit, decimal, upper_hex, lower_hex}

-- The value of a digit, in either case.
abbrev pub digit_value : ℕ → ℕ
digit_value c = if ltb c 0x41 then c - 0x30 else if ltb c 0x61 then c - 0x41 + 10 else c - 0x61 + 10

-- The number that a text of digits stands for, after the digits of `high`.
abbrev pub read_from : ℕ → ℕ → Text → ℕ
read_from base high [] = high
read_from base high (c ∷ s) = read_from base (high * base + digit_value c) s

read_from-append :
    (base high : ℕ) (s t : Text)
    → read_from base high (s ++ t) ≡ read_from base (read_from base high s) t
read_from-append base high [] t = refl
read_from-append base high (c ∷ s) t = read_from-append base (high * base + digit_value c) s t

-- Leading zeros change nothing.
read_from-zeros :
    (base n : ℕ) (s : Text) → read_from base 0 (replicate n 0x30 ++ s) ≡ read_from base 0 s
read_from-zeros base zero s = refl
read_from-zeros base (suc n) s =
    let zero_times : 0 * base + 0 ≡ 0 = omega arith in
    ap (λ high. read_from base high (replicate n 0x30 ++ s)) zero_times ∙ read_from-zeros base n s

digit_value-hex_digit : (d : ℕ) → d < 16 → digit_value (hex_digit d) ≡ d
digit_value-hex_digit d h = ground arith

digit_value-lower_hex_digit : (d : ℕ) → d < 16 → digit_value (lower_hex_digit d) ≡ d
digit_value-lower_hex_digit d h = ground arith

module _ (digit : ℕ → ℕ) (base : ℕ) (reads : (d : ℕ) → d < base → digit_value (digit d) ≡ d)
    (pos : 2 ≤ base) where
  read_from-radix_digits :
      (fuel v : ℕ) → v < base ^ fuel → read_from base 0 (radix_digits digit base fuel v) ≡ v
  unfolding radix_digits
  read_from-radix_digits zero v h = omega (arith, rw pow-zero at h)
  read_from-radix_digits (suc fuel) v h = elim (Bool-cases (ltb v base)) [
    | inl e ↦ rw (e, reads v (ground arith)) (omega arith)
    | inr e ↦
        let short : v / base < base ^ fuel =
          (div-lt_iff_lt-mul {k = base} {x = v} {y = base ^ fuel} (omega arith)).1
            (rw (← pow-suc base fuel) h) in
        rw
          (
            e,
            read_from-append base 0 (radix_digits digit base fuel (v / base))
                (digit (v % base) ∷ []),
            read_from-radix_digits fuel (v / base) short,
            reads (v % base) (mod-lt v (omega arith)),
          )
          (div-add-mod' v base)
  ]

-- What is printed of a number below the bound can be read back.
pub read_from-decimal : (v : ℕ) → v < 10 ^ 20 → read_from 10 0 (decimal v) ≡ v
unfolding decimal
read_from-decimal v h =
    read_from-radix_digits hex_digit 10 (λ d lt. digit_value-hex_digit d (omega (arith, lt)))
      (omega arith) 20 v h

pub read_from-upper_hex :
    (v n : ℕ) → v < 2 ^ 64 → read_from 16 0 (replicate n b'0' ++ upper_hex v) ≡ v
unfolding upper_hex
read_from-upper_hex v n h =
    read_from-zeros 16 n (upper_hex v)
    ∙ read_from-radix_digits hex_digit 16 digit_value-hex_digit (omega arith) 16 v h

pub read_from-lower_hex :
    (v n : ℕ) → v < 2 ^ 64 → read_from 16 0 (replicate n b'0' ++ lower_hex v) ≡ v
unfolding lower_hex
read_from-lower_hex v n h =
    read_from-zeros 16 n (lower_hex v)
    ∙ read_from-radix_digits lower_hex_digit 16 digit_value-lower_hex_digit (omega arith) 16 v h
