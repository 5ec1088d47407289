-- ===== src/Graphics/Font.antt =====
-- The font of wasabi/src/graphics.rs and the drawing of text. A character is its code point. The lines
-- of wasabi/src/font.txt are a parameter, `source`, and the cache is a state that the calls hand on.
use osdev_hikalium.Prelude.{
  ℕ, zero, suc, ◌+◌, ◌-◌, ◌*◌, Bool, ◌&&◌, ltb, leb, ◌==◌, if◌then◌else◌, Option, none, some, List,
  [], ◌∷◌, replicate, get_elem?, set,
}
use osdev_hikalium.Prelude.Int.{ℤ, pos, ◌+ℤ◌, ◌*ℤ◌, checked_i64}
use osdev_hikalium.Prelude.Usize.{Outcome, ok, panic, ◌>>=◌}
use osdev_hikalium.Graphics.{Bitmap, Pixels, draw_point, drawn_pixels}
pub mod Rows
pub mod Source
pub mod Glyphs
pub mod Text

abbrev pub star : ℕ
star = 0x2a

-- `[[char; 8]; 16]`, and 256 of them.
abbrev pub Glyph : Type 0
Glyph = List (List ℕ)

abbrev pub Font : Type 0
Font = List Glyph

abbrev pub blank : Glyph
blank = replicate 16 (replicate 8 star)

-- `strip_prefix("0x")`.
abbrev pub strip_prefix : List ℕ → Option (List ℕ)
strip_prefix [] = none
strip_prefix (a ∷ []) = none
strip_prefix (a ∷ x ∷ rest) = if a == 0x30 && x == 0x78 then some rest else none

-- `to_digit(16)`.
abbrev pub to_digit : ℕ → Option ℕ
to_digit c =
    if leb 0x30 c && leb c 0x39
    then some (c - 0x30)
    else if leb 0x41 c && leb c 0x46
    then some (c - 0x41 + 10)
    else if leb 0x61 c && leb c 0x66
    then some (c - 0x61 + 10)
    else none

-- The digits of `u8::from_str_radix(_, 16)`, after the value so far; a value past 255 is an error.
unfoldable pub read_digits : ℕ → List ℕ → Option ℕ
read_digits value [] = some value
read_digits value (c ∷ cs) = elim (to_digit c) [
  | none ↦ none
  | some d ↦ if ltb (value * 16 + d) 256 then read_digits (value * 16 + d) cs else none
]

-- A sign `+` may stand before the digits, and there is at least one digit.
unfoldable pub from_str_radix : List ℕ → Option ℕ
from_str_radix [] = none
from_str_radix (c ∷ []) = read_digits 0 (c ∷ [])
from_str_radix (c ∷ d ∷ cs) =
    if c == 0x2b then read_digits 0 (d ∷ cs) else read_digits 0 (c ∷ d ∷ cs)

-- The characters of a line into a row of a glyph, from column x on; `get_mut` drops those past 8.
unfoldable pub read_row : List ℕ → ℕ → List ℕ → List ℕ
read_row row x [] = row
read_row row x (c ∷ cs) = read_row (set row x c) (x + 1) cs

-- `glyph[y]`.
abbrev pub row_at : Glyph → ℕ → List ℕ
row_at glyph y = elim (get_elem? glyph y) [ some row ↦ row | none ↦ [] ]

-- At most n of the lines into a glyph, from row y on.
unfoldable pub read_glyph : ℕ → Glyph → ℕ → List (List ℕ) → Glyph
read_glyph zero glyph y lines = glyph
read_glyph (suc n) glyph y [] = glyph
read_glyph (suc n) glyph y (line ∷ lines) =
    read_glyph n (set glyph y (read_row (row_at glyph y) 0 line)) (y + 1) lines

-- The index that a header line names.
unfoldable pub header_index : List ℕ → Option ℕ
header_index line = elim (strip_prefix line) [ none ↦ none | some digits ↦ from_str_radix digits ]

-- The glyph of the lines after a header goes to its index.
abbrev pub put_glyph : Font → List (List ℕ) → Option ℕ → Font
put_glyph font rest none = font
put_glyph font rest (some idx) = set font idx (read_glyph 16 blank 0 rest)

-- One line of the source, with the lines after it.
unfoldable pub read_line : Font → List ℕ → List (List ℕ) → Font
read_line font line rest = put_glyph font rest (header_index line)

unfoldable pub read_font : Font → List (List ℕ) → Font
read_font font [] = font
read_font font (line ∷ rest) = read_font (read_line font line rest) rest

module _ (source : List (List ℕ)) where
  -- `FONT_CACHE.get_or_insert_with`.
  unfoldable pub cached_font : Option Font → Font
  cached_font (some font) = font
  cached_font none = read_font (replicate 256 blank) source

  -- `lookup_font`: the cache afterwards, and the glyph. Characters up to 255 have one.
  unfoldable pub lookup_font : ℕ → Option Font → Outcome (Option Font × Option Glyph)
  lookup_font c cache =
      if ltb c 256
      then elim (get_elem? (cached_font cache) c) [
        | some glyph ↦ ok (some (cached_font cache), some glyph)
        | none ↦ panic
      ]
      else ok (cache, none)

-- The pixels of row dy of a glyph, from column dx on.
unfoldable pub draw_glyph_row : Bitmap → ℕ → ℤ → ℤ → ℕ → ℕ → List ℕ → Pixels → Outcome Pixels
draw_glyph_row b color x y dy dx [] m = ok m
draw_glyph_row b color x y dy dx (pixel ∷ row) m =
    let rest : Pixels → Outcome Pixels = λ m. draw_glyph_row b color x y dy (dx + 1) row m in
    if pixel == star
    then (checked_i64 (x +ℤ pos dx) >>= λ px.
        (checked_i64 (y +ℤ pos dy) >>= λ py.
        (draw_point b color px py m >>= λ drawn. rest (drawn_pixels drawn))))
    else rest m

-- The rows of a glyph, from row dy on.
unfoldable pub draw_glyph : Bitmap → ℕ → ℤ → ℤ → ℕ → Glyph → Pixels → Outcome Pixels
draw_glyph b color x y dy [] m = ok m
draw_glyph b color x y dy (row ∷ rows) m =
    draw_glyph_row b color x y dy 0 row m >>= draw_glyph b color x y (dy + 1) rows

-- The state of drawing text: the cache and the memory.
abbrev pub Screen : Type 0
Screen = Option Font × Pixels

module _ (source : List (List ℕ)) where
  unfoldable pub draw_font_fg : Bitmap → ℤ → ℤ → ℕ → ℕ → Screen → Outcome Screen
  draw_font_fg b x y color c (cache, m) = lookup_font source c cache >>= λ found. elim found.1 [
    | none ↦ ok (found.0, m)
    | some glyph ↦ draw_glyph b color x y 0 glyph m >>= λ m. ok (found.0, m)
  ]

  -- The characters of a string from number i on.
  unfoldable pub draw_str_from : Bitmap → ℤ → ℤ → ℕ → ℕ → List ℕ → Screen → Outcome Screen
  draw_str_from b x y color i [] s = ok s
  draw_str_from b x y color i (c ∷ cs) s =
      (checked_i64 (pos i *ℤ pos 8) >>= λ offset.
      (checked_i64 (x +ℤ offset) >>= λ cx. draw_font_fg b cx y color c s))
      >>= draw_str_from b x y color (i + 1) cs

  unfoldable pub draw_str_fg : Bitmap → ℤ → ℤ → ℕ → List ℕ → Screen → Outcome Screen
  draw_str_fg b x y color text s = draw_str_from b x y color 0 text s
