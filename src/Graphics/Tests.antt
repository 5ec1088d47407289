-- ===== src/Graphics/Tests.antt =====
-- The theorems about the drawing of wasabi/src/graphics.rs, at concrete bitmaps.
use osdev_hikalium.Prelude.{
  ℕ, ◌-◌, ◌≡◌, refl, inl, ◌&&◌, if◌then◌else◌, none, some, List, [], ◌∷◌, arith,
}
use osdev_hikalium.Prelude.Int.{pos, negsuc}
use osdev_hikalium.Prelude.Usize.{ok, panic}
use osdev_hikalium.Graphics.{Bitmap, Pixels, done, out_of_range, fill_rect}
use osdev_hikalium.Graphics.Address.{IsBitmap, visible}
use osdev_hikalium.Graphics.Paint.{Paints}
use osdev_hikalium.Graphics.Rect.{corners, in_rect, fill_rect-Paints}
use osdev_hikalium.Graphics.Line.{calc_slope_point, draw_line}
use osdev_hikalium.Graphics.Line.Slope.{IsNearest, calc_slope_point-IsNearest}
use osdev_hikalium.Graphics.Line.Trace.{ends, line_area}
use osdev_hikalium.Graphics.Line.Segment.{draw_line-Paints}
use osdev_hikalium.Graphics.Font.{Glyph, Screen, cached_font, lookup_font, draw_str_fg}
use osdev_hikalium.Graphics.Font.Rows.{source_pixel}
use osdev_hikalium.Graphics.Font.Source.{IsCache, HasShape, lookup_font-HasShape}
use osdev_hikalium.Graphics.Font.Text.{text_area, draw_str_fg-Paints}
use osdev_hikalium.Graphics.Pattern.{draw_test_pattern}
use osdev_hikalium.Graphics.Pattern.Layers.{Shows}
use osdev_hikalium.Graphics.Pattern.Shown.{
  pattern_layers, draw_test_pattern-Shows, draw_test_pattern-panics,
}

-- 8 visible columns of 10, and 4 lines.
abbrev board : Bitmap
board = record {
  bytes_per_pixel = pos 4;
  pixels_per_line = pos 10;
  width = pos 8;
  height = pos 4;
  buf_mut = 0x1000;
}

board-IsBitmap : IsBitmap board 8 4 10
board-IsBitmap = record {
  four_bytes = refl;
  strides = refl;
  widths = refl;
  heights = refl;
  fits = omega arith;
  in_memory = omega arith;
}

abbrev display : Bitmap
display = record {
  bytes_per_pixel = pos 4;
  pixels_per_line = pos 640;
  width = pos 640;
  height = pos 480;
  buf_mut = 0x8000_0000;
}

display-IsBitmap : IsBitmap display 640 480 640
display-IsBitmap = record {
  four_bytes = refl;
  strides = refl;
  widths = refl;
  heights = refl;
  fits = omega arith;
  in_memory = omega arith;
}

abbrev black : Pixels
black = λ a. 0

-- The header `0x41`, and one row with a star.
abbrev font_lines : List (List ℕ)
font_lines = (0x30 ∷ 0x78 ∷ 0x34 ∷ 0x31 ∷ []) ∷ (0x2e ∷ 0x2a ∷ []) ∷ []

font_lines-IsCache : IsCache font_lines none
font_lines-IsCache = refl

fill_rect-Paints_example :
    (out : Pixels) × (fill_rect board 0xff (pos 1) (pos 1) (pos 2) (pos 2) black
      ≡ ok (if corners board (pos 1) (pos 1) (pos 2) (pos 2) then done out else out_of_range out))
    × Paints board 4 10 0xff
        (λ x y.
          corners board (pos 1) (pos 1) (pos 2) (pos 2)
          && in_rect (pos 1) (pos 1) (pos 2) (pos 2) x y)
        black
        out
fill_rect-Paints_example =
    fill_rect-Paints board 8 4 10 board-IsBitmap 0xff (pos 1) (pos 1) (pos 2) (pos 2) black
      (omega arith, omega arith) (omega arith, omega arith)

calc_slope_point-IsNearest_example :
    (r : ℕ) × (calc_slope_point (pos 5) (pos 2) (pos 4) ≡ ok (some (pos r))) × IsNearest 5 2 4 r
calc_slope_point-IsNearest_example =
    calc_slope_point-IsNearest 5 2 4 (omega arith) (omega arith) (omega arith) (omega arith)
      (omega arith)

draw_line-Paints_example :
    (out : Pixels) × (draw_line board 0xff (pos 6) (pos 0) (pos 1) (pos 3) black
      ≡ ok (if ends board (pos 6) (pos 0) (pos 1) (pos 3) then done out else out_of_range out))
    × Paints board 4 10 0xff
        (λ x y. ends board (pos 6) (pos 0) (pos 1) (pos 3) && line_area 6 0 1 3 x y)
        black
        out
draw_line-Paints_example =
    draw_line-Paints board 8 4 10 board-IsBitmap 0xff (pos 6) (pos 0) (pos 1) (pos 3) black
      (omega arith) (omega arith)

lookup_font-HasShape_example :
    (glyph : Glyph) × (lookup_font font_lines 0x41 none
      ≡ ok (some (cached_font font_lines none), some glyph))
    × HasShape glyph (source_pixel font_lines 0x41)
lookup_font-HasShape_example =
    lookup_font-HasShape font_lines 0x41 none font_lines-IsCache (omega arith)

draw_str_fg-Paints_example :
    (s : Screen) × (draw_str_fg font_lines board
        (negsuc 3)
        (pos 1)
        0xff
        (0x41 ∷ 0x3042 ∷ [])
        (none, black)
      ≡ ok s)
    × IsCache font_lines s.0
    × Paints board 4 10 0xff
        (λ i j.
          visible 8 4 10 i j && text_area font_lines (negsuc 3) (pos 1) 0 (0x41 ∷ 0x3042 ∷ []) i j)
        black
        s.1
draw_str_fg-Paints_example =
    draw_str_fg-Paints font_lines board 8 4 10 board-IsBitmap 0xff (negsuc 3) (pos 1)
      (0x41 ∷ 0x3042 ∷ []) none black (omega arith) (omega arith) (omega arith, omega arith)
      (omega arith) font_lines-IsCache

draw_test_pattern-Shows_example :
    (s : Screen) × (draw_test_pattern font_lines display (none, black) ≡ ok s)
    × IsCache font_lines s.0
    × Shows display 480 640 (pattern_layers font_lines 640 480 640 (640 - 129)) black s.1
draw_test_pattern-Shows_example =
    draw_test_pattern-Shows font_lines display 640 480 640 display-IsBitmap none black (omega arith)
      (omega arith) (omega arith) (omega arith) (omega arith) font_lines-IsCache

draw_test_pattern-panics_example : draw_test_pattern font_lines board (none, black) ≡ panic
draw_test_pattern-panics_example =
    draw_test_pattern-panics font_lines board 8 4 10 board-IsBitmap none black (omega arith)
      (omega arith) (inl (omega arith))
