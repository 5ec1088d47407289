-- ===== src/Graphics/Font/Rows.antt =====
-- The glyphs that `lookup_font` of wasabi/src/graphics.rs reads from the lines of the font.
use osdev_hikalium.Prelude.{
  ℕ, zero, suc, ◌+◌, ◌≤◌, ◌<◌, ◌≡◌, ◌≢◌, refl, ap, ◌∙◌, ◌==◌, if◌then◌else◌, Option, none, some,
  List, [], ◌∷◌, length, length-set, replicate, get_elem?, get_elem?-set_ne, get_elem?-set_self,
  get_elem?-replicate, set, arith,
}
use osdev_hikalium.Graphics.Font.{Glyph, blank, star, read_row, row_at, read_glyph, header_index}

-- The lines after a header line, if it is one of character c.
abbrev pub lines_named : ℕ → List (List ℕ) → Option ℕ → Option (List (List ℕ))
lines_named c rest none = none
lines_named c rest (some idx) = if idx == c then some rest else none

abbrev pub later_or : Option (List (List ℕ)) → Option (List (List ℕ)) → Option (List (List ℕ))
later_or none here = here
later_or (some lines) here = some lines

-- The lines after the last header of character c.
abbrev pub glyph_lines : ℕ → List (List ℕ) → Option (List (List ℕ))
glyph_lines c [] = none
glyph_lines c (line ∷ rest) = later_or (glyph_lines c rest) (lines_named c rest (header_index line))

abbrev pub or_star : Option ℕ → ℕ
or_star none = star
or_star (some c) = c

-- The character in column x of a line, and a star where there is none.
abbrev pub char_in : Option (List ℕ) → ℕ → ℕ
char_in none x = star
char_in (some line) x = or_star (get_elem? line x)

abbrev pub char_at : List (List ℕ) → ℕ → ℕ → ℕ
char_at lines x y = char_in (get_elem? lines y) x

abbrev pub pixel_of : Option (List (List ℕ)) → ℕ → ℕ → ℕ
pixel_of none x y = star
pixel_of (some lines) x y = char_at lines x y

-- The pixel that the source gives to a character.
abbrev pub source_pixel : List (List ℕ) → ℕ → ℕ → ℕ → ℕ
source_pixel source c x y = pixel_of (glyph_lines c source) x y

abbrev pub pixel_in : Option (List ℕ) → ℕ → Option ℕ
pixel_in none x = none
pixel_in (some row) x = get_elem? row x

abbrev pub glyph_pixel : Glyph → ℕ → ℕ → Option ℕ
glyph_pixel glyph x y = pixel_in (get_elem? glyph y) x

-- What a write leaves over an old value.
abbrev over {ℓ} : {A : Type ℓ} → Option A → Option A → Option A
over (some a) old = some a
over none old = old

read_row_left :
    (cs row : List ℕ) (from x : ℕ) → x < from → get_elem? (read_row row from cs) x ≡ get_elem? row x
unfolding read_row
read_row_left [] row from x h = refl
read_row_left (c ∷ cs) row from x h =
    read_row_left cs (set row from c) (from + 1) x (omega arith)
    ∙ get_elem?-set_ne row from x c (λ e. ground (arith, h, e))

read_row-get_elem? :
    (cs row : List ℕ) (from k : ℕ)
    → from + k < length row
    → get_elem? (read_row row from cs) (from + k) ≡ over (get_elem? cs k) (get_elem? row (from + k))
unfolding read_row
read_row-get_elem? [] row from k h = refl
read_row-get_elem? (c ∷ cs) row from zero h =
    let here : from + 0 ≡ from = omega arith in
    rw here (
      read_row_left cs (set row from c) (from + 1) from (omega arith)
      ∙ get_elem?-set_self row from c (omega arith))
read_row-get_elem? (c ∷ cs) row from (suc k) h =
    let at : from + suc k ≡ from + 1 + k = omega arith in
    rw at (
      read_row-get_elem? cs (set row from c) (from + 1) k (omega (arith, length-set row from c))
      ∙ ap (over (get_elem? cs k))
          (get_elem?-set_ne row from (from + 1 + k) c (λ e. ground (arith, e))))

-- A row of a glyph after a line was read into it.
abbrev row_after : Option (List ℕ) → Glyph → ℕ → Option (List ℕ)
row_after none glyph y = get_elem? glyph y
row_after (some line) glyph y = some (read_row (row_at glyph y) 0 line)

row_at-set_ne :
    (glyph : Glyph) (y y' : ℕ) (row : List ℕ)
    → y ≢ y'
    → row_at (set glyph y row) y' ≡ row_at glyph y'
row_at-set_ne glyph y y' row ne = rw (get_elem?-set_ne glyph y y' row ne, row_at) refl

read_glyph_above :
    (n : ℕ) (glyph : Glyph) (from y : ℕ) (lines : List (List ℕ))
    → y < from
    → get_elem? (read_glyph n glyph from lines) y ≡ get_elem? glyph y
unfolding read_glyph
read_glyph_above zero glyph from y lines h = refl
read_glyph_above (suc n) glyph from y [] h = refl
read_glyph_above (suc n) glyph from y (line ∷ lines) h =
    read_glyph_above n (set glyph from (read_row (row_at glyph from) 0 line)) (from + 1) y lines
      (omega arith)
    ∙ get_elem?-set_ne glyph from y (read_row (row_at glyph from) 0 line)
        (λ e. ground (arith, h, e))

row_after-set_ne :
    (line : Option (List ℕ)) (glyph : Glyph) (y y' : ℕ) (row : List ℕ)
    → y ≢ y'
    → row_after line (set glyph y row) y' ≡ row_after line glyph y'
row_after-set_ne none glyph y y' row ne = get_elem?-set_ne glyph y y' row ne
row_after-set_ne (some line) glyph y y' row ne =
    ap (λ r. some (read_row r 0 line)) (row_at-set_ne glyph y y' row ne)

read_glyph-get_elem? :
    (n : ℕ) (glyph : Glyph) (from k : ℕ) (lines : List (List ℕ))
    → k < n
    → from + n ≤ length glyph
    → get_elem? (read_glyph n glyph from lines) (from + k)
      ≡ row_after (get_elem? lines k) glyph (from + k)
unfolding read_glyph
read_glyph-get_elem? zero glyph from k lines lt h = absurd (omega arith)
read_glyph-get_elem? (suc n) glyph from k [] lt h = refl
read_glyph-get_elem? (suc n) glyph from zero (line ∷ lines) lt h =
    let here : from + 0 ≡ from = omega arith in
    rw here (
      read_glyph_above n (set glyph from (read_row (row_at glyph from) 0 line)) (from + 1) from
        lines (omega arith)
      ∙ get_elem?-set_self glyph from (read_row (row_at glyph from) 0 line) (omega arith))
read_glyph-get_elem? (suc n) glyph from (suc k) (line ∷ lines) lt h =
    let at : from + suc k ≡ from + 1 + k = omega arith in
    let row = read_row (row_at glyph from) 0 line in
    rw at (
      read_glyph-get_elem? n (set glyph from row) (from + 1) k lines (omega arith)
        (omega (arith, length-set glyph from row))
      ∙ row_after-set_ne (get_elem? lines k) glyph from (from + 1 + k) row (λ e. ground (arith, e)))

over-star : (o : Option ℕ) → over o (some star) ≡ some (or_star o)
over-star none = refl
over-star (some c) = refl

-- A glyph of which row y holds stars in all columns, and the lines that are read into it.
module _ (glyph : Glyph) (row : List ℕ) (x y : ℕ) where
  record IsBlankAt : Type 0 where
    tall : length glyph ≡ 16
    has_row : get_elem? glyph y ≡ some row
    wide : length row ≡ 8
    stars : get_elem? row x ≡ some star

  row_pixel :
      (line : Option (List ℕ))
      → IsBlankAt
      → x < 8
      → pixel_in (row_after line glyph y) x ≡ some (char_in line x)
  row_pixel none k hx = ap (λ r. pixel_in r x) k.has_row ∙ k.stars
  row_pixel (some line) k hx =
      let row_here : row_at glyph y ≡ row = rw (k.has_row, row_at) refl in
      let shift : 0 + x ≡ x = omega arith in
      let read = read_row-get_elem? line row 0 x (omega (arith, k.wide)) in
      rw row_here
        (rw shift at read ∙ ap (over (get_elem? line x)) k.stars ∙ over-star (get_elem? line x))

  glyph_pixel-read_glyph :
      (lines : List (List ℕ))
      → IsBlankAt
      → x < 8
      → y < 16
      → glyph_pixel (read_glyph 16 glyph 0 lines) x y ≡ some (char_at lines x y)
  glyph_pixel-read_glyph lines k hx hy =
      let shift : 0 + y ≡ y = omega arith in
      let read = read_glyph-get_elem? 16 glyph 0 y lines hy (omega (arith, k.tall)) in
      ap (λ r. pixel_in r x) (rw shift at read) ∙ row_pixel (get_elem? lines y) k hx

-- A glyph that is read from lines has the characters of the lines.
pub read_glyph-pixel :
    (lines : List (List ℕ)) (x y : ℕ)
    → x < 8
    → y < 16
    → glyph_pixel (read_glyph 16 blank 0 lines) x y ≡ some (char_at lines x y)
read_glyph-pixel lines x y hx hy =
    glyph_pixel-read_glyph blank (replicate 8 star) x y lines
      (record {
        tall = refl;
        has_row = get_elem?-replicate 16 y (replicate 8 star) hy;
        wide = refl;
        stars = get_elem?-replicate 8 x star hx;
      })
      hx hy
