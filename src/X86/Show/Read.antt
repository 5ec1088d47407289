-- ===== src/X86/Show/Read.antt =====
-- What is printed of an entry of the page tables determines the entry.
use osdev_hikalium.Prelude.{
  ℕ, zero, suc, ◌+◌, ◌-◌, ◌/◌, ◌%◌, ◌^◌, ◌≤◌, ◌<◌, ◌≡◌, refl, ap, inl, inr, ltb, Bool, true, false,
  Bool-cases, if◌then◌else◌, [], ◌∷◌, ◌++◌, append_assoc, length, length-append, length-replicate,
  replicate, arith,
}
use osdev_hikalium.Print.{take, hex_digit}
use osdev_hikalium.Print.Format.{
  Text, codes, radix_digits, decimal, upper_hex, lower_hex, lower_hex_digit, pad_left, hex_018,
}
use osdev_hikalium.Print.Format.Digits.{read_from, read_from-upper_hex, read_from-lower_hex}
use osdev_hikalium.X86.Paging.{is_present, is_writable, is_user}
use osdev_hikalium.X86.Show.{format_entry}

abbrev pub drop : ℕ → Text → Text
drop zero s = s
drop (suc n) [] = []
drop (suc n) (c ∷ s) = drop n s

-- The fields of a printed entry, by their columns.
pub record Shown : Type 0 where
  pub level : ℕ
  pub address : ℕ
  pub value : ℕ
  pub flags : Text

abbrev pub read_entry : Text → Shown
read_entry s = record {
  level = read_from 10 0 (take 1 (drop 1 s));
  address = read_from 16 0 (take 16 (drop 12 s));
  value = read_from 16 0 (take 18 (drop 31 s));
  flags = take 3 (drop 50 s);
}

-- The letters of an entry.
abbrev pub flag_letters : ℕ → Text
flag_letters value =
    (if is_present value then b'P' else b'N')
    ∷ (if is_writable value then b'W' else b'R')
    ∷ (if is_user value then b'U' else b'S')
    ∷ []

take-append : (n : ℕ) (s t : Text) → length s ≡ n → take n (s ++ t) ≡ s
take-append zero [] t e = refl
take-append zero (c ∷ s) t e = absurd (omega arith)
take-append (suc n) [] t e = absurd (omega arith)
take-append (suc n) (c ∷ s) t e = ap (λ u. c ∷ u) (take-append n s t (omega arith))

drop-append : (s t : Text) (n m : ℕ) → n ≡ length s + m → drop n (s ++ t) ≡ drop m t
drop-append [] t n m e = let same : n ≡ m = omega arith in rw same refl
drop-append (c ∷ s) t zero m e = absurd (omega arith)
drop-append (c ∷ s) t (suc n) m e = drop-append s t n m (omega arith)

length-radix_digits :
    (digit : ℕ → ℕ) (base fuel v : ℕ) → length (radix_digits digit base fuel v) ≤ fuel
unfolding radix_digits
length-radix_digits digit base zero v = omega arith
length-radix_digits digit base (suc fuel) v = elim (Bool-cases (ltb v base)) [
  | inl e ↦ rw e (omega arith)
  | inr e ↦ rw e (
      omega (
        arith,
        length-append (radix_digits digit base fuel (v / base)) (digit (v % base) ∷ []),
        length-radix_digits digit base fuel (v / base),
      ))
]

length-pad_left : (c width : ℕ) (s : Text) → length s ≤ width → length (pad_left c width s) ≡ width
length-pad_left c width s h =
    omega (
      arith,
      length-append (replicate (width - length s) c) s,
      length-replicate (width - length s) c,
    )

decimal_digit : (v : ℕ) → v < 10 → decimal v ≡ hex_digit v ∷ []
unfolding decimal radix_digits
decimal_digit v h = ground arith

-- A text of two fields in columns.
module _ (a v flags : Text) (ha : length a ≡ 16) (hv : length v ≡ 18) where
  abbrev columns : Text
  columns = (a ++ codes " { ") ++ (v ++ (codes " " ++ (flags ++ codes " }")))

  length-first : length (a ++ codes " { ") ≡ 19
  length-first = omega (arith, length-append a (codes " { "))

  first_column : take 16 columns ≡ a
  first_column = rw append_assoc (take-append 16 a _ ha)

  second_column : take 18 (drop 19 columns) ≡ v
  second_column =
      rw
        (drop-append (a ++ codes " { ") (v ++ (codes " " ++ (flags ++ codes " }"))) 19 0
          (omega (arith, length-first)))
        (take-append 18 v _ hv)

  third_column : length flags ≡ 3 → take 3 (drop 38 columns) ≡ flags
  third_column h =
      rw
        (
          drop-append (a ++ codes " { ") (v ++ (codes " " ++ (flags ++ codes " }"))) 38 19
              (omega (arith, length-first)),
          drop-append v (codes " " ++ (flags ++ codes " }")) 19 1 (omega (arith, hv)),
        )
        (take-append 3 flags _ h)

flags_text :
    (p w u : Bool)
    → (if p then codes "P" else codes "N")
        ++ ((if w then codes "W" else codes "R")
            ++ ((if u then codes "U" else codes "S") ++ codes " }"))
      ≡ ((if p then b'P' else b'N') ∷ (if w then b'W' else b'R') ∷ (if u then b'U' else b'S') ∷ [])
        ++ codes " }"
flags_text true true true = refl
flags_text true true false = refl
flags_text true false true = refl
flags_text true false false = refl
flags_text false true true = refl
flags_text false true false = refl
flags_text false false true = refl
flags_text false false false = refl

format_entry-columns :
    (level self value : ℕ)
    → level < 10
    → (ha : length (pad_left b'0' 16 (lower_hex self)) ≡ 16) → (hv : length (hex_018 value) ≡ 18)
    → format_entry level self value
      ≡ codes "L"
        ++ (hex_digit level ∷ [])
        ++ codes "Entry @ 0x"
        ++ columns (pad_left b'0' 16 (lower_hex self)) (hex_018 value) (flag_letters value) ha hv
unfolding format_entry
format_entry-columns level self value hl ha hv = rw (decimal_digit level hl) (
    ap
      (λ (t : Text).
        codes "L"
        ++ (hex_digit level ∷ [])
        ++ codes "Entry @ 0x"
        ++ ((pad_left b'0' 16 (lower_hex self) ++ codes " { ")
            ++ (hex_018 value ++ (codes " " ++ t))))
      (flags_text (is_present value) (is_writable value) (is_user value)))

length-lower_hex : (v : ℕ) → length (lower_hex v) ≤ 16
unfolding lower_hex
length-lower_hex v = length-radix_digits lower_hex_digit 16 16 v

length-upper_hex : (v : ℕ) → length (upper_hex v) ≤ 18
unfolding upper_hex
length-upper_hex v = omega (arith, length-radix_digits hex_digit 16 16 v)

read_digit : (d : ℕ) → d < 10 → read_from 10 0 (hex_digit d ∷ []) ≡ d
read_digit d h = ground arith

-- For a level of one digit and a 64-bit address and value, the level, the address, the value and
-- the three letters of the flags can be read back from fixed columns of what Entry::format prints.
pub format_entry-Reads :
    (level self value : ℕ)
    → level < 10
    → self < 2 ^ 64
    → value < 2 ^ 64
    → read_entry (format_entry level self value)
      ≡ record { level = level; address = self; value = value; flags = flag_letters value }
format_entry-Reads level self value hl hs hv =
    let a = pad_left b'0' 16 (lower_hex self) in
    let v = hex_018 value in
    let ha = length-pad_left b'0' 16 (lower_hex self) (length-lower_hex self) in
    let hv' = length-pad_left b'0' 18 (upper_hex value) (length-upper_hex value) in
    rw
      (
        format_entry-columns level self value hl ha hv',
        first_column a v (flag_letters value) ha hv',
        second_column a v (flag_letters value) ha hv',
        third_column a v (flag_letters value) ha hv' refl,
        read_digit level hl,
        read_from-lower_hex self (16 - length (lower_hex self)) hs,
        read_from-upper_hex value (18 - length (upper_hex value)) hv,
      )
      refl
