-- ===== src/Print.antt =====
-- `hexdump_bytes` of wasabi/src/print.rs, as the characters that it prints.
use osdev_hikalium.Prelude.{
  ℕ, zero, suc, ◌+◌, ◌-◌, ◌*◌, ◌/◌, ◌%◌, ◌^◌, ◌≤◌, ◌<◌, ◌≡◌, refl, leb, ltb, ◌&&◌, ◌==◌,
  if◌then◌else◌, List, [], ◌∷◌, ◌++◌, set, replicate,
}
use osdev_hikalium.Prelude.Usize.{Outcome, ok, panic, ◌>>=◌}
pub mod Hexdump
pub mod Format
pub mod Log
mod Tests

-- A digit of `{:X}`, and the last n digits of a number.
abbrev pub hex_digit : ℕ → ℕ
hex_digit d = if ltb d 10 then 0x30 + d else 0x41 + (d - 10)

abbrev pub hex_digits : ℕ → ℕ → List ℕ
hex_digits zero v = []
hex_digits (suc n) v = hex_digits n (v / 16) ++ (hex_digit (v % 16) ∷ [])

-- `{offset:08X}: ` for an offset below 2 ^ 32, and `{:02X} ` for a byte.
abbrev pub print_offset : ℕ → List ℕ
print_offset offset = hex_digits 8 offset ++ (0x3a ∷ 0x20 ∷ [])

abbrev pub print_byte : ℕ → List ℕ
print_byte v = hex_digits 2 v ++ (0x20 ∷ [])

-- The characters of the full lines, and those of the last line.
abbrev pub print_ascii : List ℕ → List ℕ
print_ascii [] = []
print_ascii (c ∷ cs) = (if leb 0x20 c && leb c 0x7e then c else 0x2e) ∷ print_ascii cs

abbrev pub print_last_ascii : List ℕ → List ℕ
print_last_ascii [] = []
print_last_ascii (c ∷ cs) = (if leb 0x20 c && leb c 0x7f then c else 0x2e) ∷ print_last_ascii cs

abbrev pub bar : List ℕ
bar = 0x7c ∷ []

-- `ascii[0..n]`.
abbrev pub take : ℕ → List ℕ → List ℕ
take zero xs = []
take (suc n) [] = []
take (suc n) (x ∷ xs) = x ∷ take n xs

-- The variables of `hexdump_bytes` and what is printed so far. `offset` is an `i32`.
pub record Dump : Type 0 where
  pub i : ℕ
  pub ascii : List ℕ
  pub offset : ℕ
  pub out : List ℕ

-- The end of a full line.
abbrev pub end_line : Dump → Outcome Dump
end_line d =
    if ltb (d.offset + 16) (2 ^ 31)
    then ok (record d {
      i = 0;
      offset = d.offset + 16;
      out = d.out ++ bar ++ print_ascii d.ascii ++ bar;
    })
    else panic

-- The body of the loop.
unfoldable pub dump_byte : Dump → ℕ → Outcome Dump
dump_byte d v =
    let start = if d.i == 0 then d.out ++ print_offset d.offset else d.out in
    let d = record d { i = d.i + 1; ascii = set d.ascii d.i v; out = start ++ print_byte v } in
    if d.i == 16 then end_line d else ok d

unfoldable pub dump_bytes : Dump → List ℕ → Outcome Dump
dump_bytes d [] = ok d
dump_bytes d (v ∷ vs) = dump_byte d v >>= λ d. dump_bytes d vs

-- `while i < 16`, with 16 - i rounds.
abbrev pub pad : ℕ → List ℕ
pad zero = []
pad (suc n) = (0x20 ∷ 0x20 ∷ 0x20 ∷ []) ++ pad n

-- The last line, if it is not full.
unfoldable pub finish_dump : Dump → List ℕ
finish_dump d =
    if d.i == 0
    then d.out
    else d.out ++ pad (16 - d.i) ++ bar ++ print_last_ascii (take d.i d.ascii) ++ bar

unfoldable pub hexdump_bytes : List ℕ → Outcome (List ℕ)
hexdump_bytes bytes =
    dump_bytes (record { i = 0; ascii = replicate 16 0x8; offset = 0; out = [] }) bytes >>= λ d.
    ok (finish_dump d)
