-- ===== src/Print/Format.antt =====
-- What the formats of the source's `print!` and `write!` come to: `{}`, `{:3}` and `{:<3}` of a number,
-- `{:018X}`, `{:#018X}` and `{:#06X}`, and `{:#p}` of a pointer, as Rust's core library documents them.
use Prim.Native.Char.{code}
use Prim.Native.String.{String}
use osdev_hikalium.Prelude.{
  ℕ, zero, suc, ◌+◌, ◌-◌, ◌*◌, ◌/◌, ◌%◌, ltb, if◌then◌else◌, List, [], ◌∷◌, ◌++◌, length, replicate,
}
use osdev_hikalium.Print.{hex_digit}
pub mod Digits

abbrev pub Text : Type 0
Text = List ℕ

-- The characters of a literal.
abbrev pub codes : String → Text
codes String.[] = []
codes (String.◌∷◌ c s) = code c ∷ codes s

-- The digits of `{:x}`.
abbrev pub lower_hex_digit : ℕ → ℕ
lower_hex_digit d = if ltb d 10 then 0x30 + d else 0x61 + (d - 10)

-- A number in a base, without leading zeros, in at most `fuel` digits.
unfoldable pub radix_digits : (ℕ → ℕ) → ℕ → ℕ → ℕ → Text
radix_digits digit base zero v = []
radix_digits digit base (suc fuel) v =
    let rest = radix_digits digit base fuel (v / base) in
    if ltb v base then digit v ∷ [] else rest ++ (digit (v % base) ∷ [])

-- `{}`, `{:X}` and `{:x}`: a word has at most 20 digits, or 16 in base 16.
unfoldable pub decimal : ℕ → Text
unfolding radix_digits
decimal v = radix_digits hex_digit 10 20 v

unfoldable pub upper_hex : ℕ → Text
unfolding radix_digits
upper_hex v = radix_digits hex_digit 16 16 v

unfoldable pub lower_hex : ℕ → Text
unfolding radix_digits
lower_hex v = radix_digits lower_hex_digit 16 16 v

-- A text to the right or to the left of a field.
abbrev pub pad_left : ℕ → ℕ → Text → Text
pad_left c width s = replicate (width - length s) c ++ s

abbrev pub pad_right : ℕ → ℕ → Text → Text
pad_right c width s = s ++ replicate (width - length s) c

-- `{:3}` and `{:<3}`.
abbrev pub right_3 : ℕ → Text
right_3 v = pad_left b' ' 3 (decimal v)

abbrev pub left_3 : ℕ → Text
left_3 v = pad_right b' ' 3 (decimal v)

-- `{:018X}`, and `{:#018X}` and `{:#06X}`, whose width counts the prefix.
abbrev pub hex_018 : ℕ → Text
hex_018 v = pad_left b'0' 18 (upper_hex v)

abbrev pub alternate_hex_018 : ℕ → Text
alternate_hex_018 v = codes "0x" ++ pad_left b'0' 16 (upper_hex v)

abbrev pub alternate_hex_06 : ℕ → Text
alternate_hex_06 v = codes "0x" ++ pad_left b'0' 4 (upper_hex v)

-- `{:#p}`.
abbrev pub alternate_pointer : ℕ → Text
alternate_pointer v = codes "0x" ++ pad_left b'0' 16 (lower_hex v)

-- `{:#X}`, and `{:?}` of a pointer.
abbrev pub alternate_hex : ℕ → Text
alternate_hex v = codes "0x" ++ upper_hex v

abbrev pub pointer : ℕ → Text
pointer v = codes "0x" ++ lower_hex v
