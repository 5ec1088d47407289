-- ===== src/Graphics/Font/Source.antt =====
-- What `lookup_font` of wasabi/src/graphics.rs finds, read off the lines of the font.
use osdev_hikalium.Prelude.{
  ℕ, zero, suc, ◌+◌, ◌≤◌, ◌<◌, ◌≡◌, refl, ap, ◌∙◌, inl, inr, Bool-cases, true, false, ltb, lt→ltb,
  ◌==◌, if◌then◌else◌, Option, none, some, List, [], ◌∷◌, length, All, length-set, length-replicate,
  replicate, get_elem?, get_elem?-set, get_elem?-replicate, set, arith,
}
use osdev_hikalium.Prelude.Usize.{ok}
use osdev_hikalium.Graphics.Font.{
  Glyph, Font, blank, star, read_digits, from_str_radix, read_row, row_at, read_glyph, header_index,
  put_glyph, read_line, read_font, cached_font, lookup_font,
}
use osdev_hikalium.Graphics.Font.Rows.{
  lines_named, later_or, glyph_lines, char_at, pixel_of, source_pixel, pixel_in, glyph_pixel,
  read_glyph-pixel,
}

read_digits-lt : (cs : List ℕ) (value d : ℕ) → value < 256 → read_digits value cs ≡ some d → d < 256
unfolding read_digits
read_digits-lt [] value d h e = ground (arith, e)
read_digits-lt (c ∷ cs) value d h e = grind (arith, read_digits-lt cs)

from_str_radix-lt : (cs : List ℕ) (d : ℕ) → from_str_radix cs ≡ some d → d < 256
unfolding from_str_radix
from_str_radix-lt [] d e = ground (arith, e)
from_str_radix-lt (c ∷ []) d e = read_digits-lt (c ∷ []) 0 d (omega arith) e
from_str_radix-lt (c ∷ f ∷ cs) d e =
    ground (arith, read_digits-lt (f ∷ cs) 0 d, read_digits-lt (c ∷ f ∷ cs) 0 d, e)

header_index-lt : (line : List ℕ) (d : ℕ) → header_index line ≡ some d → d < 256
unfolding header_index
header_index-lt line d e = grind (arith, from_str_radix-lt)

abbrev glyph_or : Option (List (List ℕ)) → Option Glyph → Option Glyph
glyph_or none old = old
glyph_or (some lines) old = some (read_glyph 16 blank 0 lines)

glyph_or-later_or :
    (a b : Option (List (List ℕ))) (old : Option Glyph)
    → glyph_or a (glyph_or b old) ≡ glyph_or (later_or a b) old
glyph_or-later_or none b old = refl
glyph_or-later_or (some lines) b old = refl

put_glyph-get_elem? :
    (font : Font) (rest : List (List ℕ)) (c : ℕ) (header : Option ℕ)
    → ((d : ℕ) → header ≡ some d → d < length font)
    → get_elem? (put_glyph font rest header) c
      ≡ glyph_or (lines_named c rest header) (get_elem? font c)
put_glyph-get_elem? font rest c none h = refl
put_glyph-get_elem? font rest c (some idx) h =
    get_elem?-set font idx c (read_glyph 16 blank 0 rest) (h idx refl) ∙ named_or idx
  where
    named_or :
        (idx : ℕ)
        → (if idx == c then some (read_glyph 16 blank 0 rest) else get_elem? font c)
          ≡ glyph_or (if idx == c then some rest else none) (get_elem? font c)
    named_or idx = elim (Bool-cases (idx == c)) [ inl e ↦ rw e refl | inr e ↦ rw e refl ]

length-put_glyph :
    (font : Font) (rest : List (List ℕ)) (header : Option ℕ)
    → length (put_glyph font rest header) ≡ length font
length-put_glyph font rest none = refl
length-put_glyph font rest (some idx) = length-set font idx (read_glyph 16 blank 0 rest)

read_font-get_elem? :
    (lines : List (List ℕ)) (font : Font) (c : ℕ)
    → length font ≡ 256
    → get_elem? (read_font font lines) c ≡ glyph_or (glyph_lines c lines) (get_elem? font c)
unfolding read_font read_line
read_font-get_elem? [] font c h = refl
read_font-get_elem? (line ∷ rest) font c h =
    read_font-get_elem? rest (put_glyph font rest (header_index line)) c
      (length-put_glyph font rest (header_index line) ∙ h)
    ∙ ap (glyph_or (glyph_lines c rest)) (
        put_glyph-get_elem? font rest c (header_index line)
          (λ d e. omega (arith, h, header_index-lt line d e)))
    ∙ glyph_or-later_or (glyph_lines c rest) (lines_named c rest (header_index line))
        (get_elem? font c)

length-read_row : (cs row : List ℕ) (from : ℕ) → length (read_row row from cs) ≡ length row
unfolding read_row
length-read_row [] row from = refl
length-read_row (c ∷ cs) row from =
    length-read_row cs (set row from c) (from + 1) ∙ length-set row from c

length-read_glyph :
    (n : ℕ) (glyph : Glyph) (from : ℕ) (lines : List (List ℕ))
    → length (read_glyph n glyph from lines) ≡ length glyph
unfolding read_glyph
length-read_glyph zero glyph from lines = refl
length-read_glyph (suc n) glyph from [] = refl
length-read_glyph (suc n) glyph from (line ∷ lines) =
    length-read_glyph n (set glyph from (read_row (row_at glyph from) 0 line)) (from + 1) lines
    ∙ length-set glyph from (read_row (row_at glyph from) 0 line)

All-set {ℓ κ} :
    {A : Type ℓ} (P : A → Type κ) (xs : List A) (i : ℕ) (v : A)
    → All P xs
    → P v
    → All P (set xs i v)
All-set P [] i v h p = tt
All-set P (x ∷ xs) zero v h p = (p, h.1)
All-set P (x ∷ xs) (suc i) v h p = (h.0, All-set P xs i v h.1 p)

abbrev pub IsWide : Glyph → Type 0
IsWide glyph = All (λ row. length row ≡ 8) glyph

row_at-wide :
    (glyph : Glyph) (y : ℕ) → y < length glyph → IsWide glyph → length (row_at glyph y) ≡ 8
row_at-wide [] y h w = absurd (omega arith)
row_at-wide (row ∷ rows) zero h w = w.0
row_at-wide (row ∷ rows) (suc y) h w = row_at-wide rows y (omega arith) w.1

read_glyph-IsWide :
    (n : ℕ) (glyph : Glyph) (from : ℕ) (lines : List (List ℕ))
    → from + n ≤ length glyph
    → IsWide glyph
    → IsWide (read_glyph n glyph from lines)
unfolding read_glyph
read_glyph-IsWide zero glyph from lines h w = w
read_glyph-IsWide (suc n) glyph from [] h w = w
read_glyph-IsWide (suc n) glyph from (line ∷ lines) h w =
    let row = read_row (row_at glyph from) 0 line in
    read_glyph-IsWide n (set glyph from row) (from + 1) lines
      (omega (arith, length-set glyph from row))
      (All-set (λ r. length r ≡ 8) glyph from row w
        (length-read_row line (row_at glyph from) 0 ∙ row_at-wide glyph from (omega arith) w))

replicate-IsWide : (n : ℕ) (row : List ℕ) → length row ≡ 8 → IsWide (replicate n row)
replicate-IsWide zero row h = tt
replicate-IsWide (suc n) row h = (h, replicate-IsWide n row h)

-- Sixteen rows of eight columns, with these characters.
pub record HasShape (glyph : Glyph) (pixel : ℕ → ℕ → ℕ) : Type 0 where
  pub inside : (x y : ℕ) → x < 8 → y < 16 → glyph_pixel glyph x y ≡ some (pixel x y)
  pub tall : length glyph ≡ 16
  pub wide : IsWide glyph

pub read_glyph-HasShape :
    (lines : List (List ℕ)) → HasShape (read_glyph 16 blank 0 lines) (char_at lines)
read_glyph-HasShape lines = record {
  inside = λ x y hx hy. read_glyph-pixel lines x y hx hy;
  tall = length-read_glyph 16 blank 0 lines;
  wide =
      read_glyph-IsWide 16 blank 0 lines (omega arith)
        (replicate-IsWide 16 (replicate 8 star) refl);
}

blank-HasShape : HasShape blank (λ x y. star)
blank-HasShape = record {
  inside = λ x y hx hy.
      ap (λ r. pixel_in r x) (get_elem?-replicate 16 y (replicate 8 star) hy)
      ∙ get_elem?-replicate 8 x star hx;
  tall = refl;
  wide = replicate-IsWide 16 (replicate 8 star) refl;
}

read_font-start :
    (font : Font) (glyph : Glyph) (source : List (List ℕ)) (c : ℕ)
    → length font ≡ 256
    → get_elem? font c ≡ some glyph
    → get_elem? (read_font font source) c ≡ glyph_or (glyph_lines c source) (some glyph)
read_font-start font glyph source c size e =
    read_font-get_elem? source font c size ∙ ap (glyph_or (glyph_lines c source)) e

cached_font-get_elem? :
    (source : List (List ℕ)) (c : ℕ)
    → c < 256
    → get_elem? (cached_font source none) c ≡ glyph_or (glyph_lines c source) (some blank)
unfolding cached_font
cached_font-get_elem? source c h =
    read_font-start (replicate 256 blank) blank source c (length-replicate 256 blank)
      (get_elem?-replicate 256 c blank h)

-- The cache holds nothing, or the font of the source.
abbrev pub IsCache : List (List ℕ) → Option Font → Type 0
IsCache source cache = cached_font source cache ≡ cached_font source none

glyph_or-HasShape :
    (lines : Option (List (List ℕ)))
    → (glyph : Glyph) × (glyph_or lines (some blank) ≡ some glyph) × HasShape glyph (pixel_of lines)
glyph_or-HasShape none = (blank, refl, blank-HasShape)
glyph_or-HasShape (some lines) = (read_glyph 16 blank 0 lines, refl, read_glyph-HasShape lines)

-- For a character up to 255, with the cache empty or built from the font, lookup_font gives a
-- glyph of 16 rows of 8 columns and the built cache. Column x of row y is the character at that
-- place of the lines after the last header of the character, and a star where there is no header,
-- line or character.
pub lookup_font-HasShape :
    (source : List (List ℕ)) (c : ℕ) (cache : Option Font)
    → IsCache source cache
    → c < 256
    → (glyph : Glyph) × (lookup_font source c cache
        ≡ ok (some (cached_font source none), some glyph))
      × HasShape glyph (source_pixel source c)
unfolding lookup_font
lookup_font-HasShape source c cache valid h =
    let shape = glyph_or-HasShape (glyph_lines c source) in
    let test : ltb c 256 ≡ true = lt→ltb c 256 h in
    let found : get_elem? (cached_font source none) c ≡ some shape.0 =
      cached_font-get_elem? source c h ∙ shape.1 in
    (shape.0, rw (test, valid, found) (ap (λ f. ok (some f, some shape.0)) valid), shape.2)

pub lookup_font-missing :
    (source : List (List ℕ)) (c : ℕ) (cache : Option Font)
    → ltb c 256 ≡ false
    → lookup_font source c cache ≡ ok (cache, none)
unfolding lookup_font
lookup_font-missing source c cache h = rw h refl
