-- ===== src/Graphics/Pattern.antt =====
-- `draw_test_pattern` of wasabi/src/graphics.rs. The characters of the strings are their code points.
use osdev_hikalium.Prelude.{ℕ, ◌+◌, ◌-◌, ◌*◌, ◌^◌, List, [], ◌∷◌}
use osdev_hikalium.Prelude.Int.{ℤ, pos, ◌+ℤ◌, ◌-ℤ◌, ◌*ℤ◌, checked_i64}
use osdev_hikalium.Prelude.Usize.{Outcome, ok, panic, ◌>>=◌}
use osdev_hikalium.Graphics.{Bitmap, Pixels, Drawn, done, out_of_range, drawn_pixels, fill_rect}
use osdev_hikalium.Graphics.Line.{draw_line}
use osdev_hikalium.Graphics.Font.{Screen, draw_str_fg}
pub mod Layers
pub mod Parts
pub mod Shown

-- `!c` of a `u32`.
abbrev pub not_u32 : ℕ → ℕ
not_u32 c = 2 ^ 32 - 1 - c

-- `expect`.
abbrev pub expect_drawn : Drawn → Outcome Pixels
expect_drawn (done m) = ok m
expect_drawn (out_of_range m) = panic

abbrev pub colors : List ℕ
colors = 0x000000 ∷ 0xff0000 ∷ 0x00ff00 ∷ 0x0000ff ∷ []

abbrev pub points : List (ℕ × ℕ)
points = (0, 0) ∷ (0, 128) ∷ (128, 0) ∷ (128, 128) ∷ []

abbrev pub digits : List ℕ
digits = 0x30 ∷ 0x31 ∷ 0x32 ∷ 0x33 ∷ 0x34 ∷ 0x35 ∷ 0x36 ∷ 0x37 ∷ 0x38 ∷ 0x39 ∷ []

abbrev pub letters : List ℕ
letters = 0x41 ∷ 0x42 ∷ 0x43 ∷ 0x44 ∷ 0x45 ∷ 0x46 ∷ []

-- The two rectangles of a colour, at line y.
unfoldable pub draw_pair : Bitmap → ℤ → ℤ → ℕ → Pixels → Outcome Pixels
draw_pair b left y c m = (fill_rect b c left y (pos 64) (pos 64) m >>= expect_drawn) >>= λ m.
    (checked_i64 (left +ℤ pos 64) >>= λ right.
    (fill_rect b (not_u32 c) right y (pos 64) (pos 64) m >>= expect_drawn))

-- The colours from number i on.
unfoldable pub draw_rects : Bitmap → ℤ → ℕ → List ℕ → Pixels → Outcome Pixels
draw_rects b left i [] m = ok m
draw_rects b left i (c ∷ cs) m =
    (checked_i64 (pos i *ℤ pos 64) >>= λ y. draw_pair b left y c m) >>= draw_rects b left (i + 1) cs

-- The lines from one point; their results are dropped.
unfoldable pub draw_lines_from : Bitmap → ℤ → ℕ × ℕ → List (ℕ × ℕ) → Pixels → Outcome Pixels
draw_lines_from b left p [] m = ok m
draw_lines_from b left p (q ∷ qs) m =
    (checked_i64 (left +ℤ pos p.0) >>= λ x0.
    (checked_i64 (left +ℤ pos q.0) >>= λ x1.
    (draw_line b 0xffffff x0 (pos p.1) x1 (pos q.1) m >>= λ drawn. ok (drawn_pixels drawn))))
    >>= draw_lines_from b left p qs

unfoldable pub draw_lines : Bitmap → ℤ → List (ℕ × ℕ) → List (ℕ × ℕ) → Pixels → Outcome Pixels
draw_lines b left [] qs m = ok m
draw_lines b left (p ∷ ps) qs m = draw_lines_from b left p qs m >>= draw_lines b left ps qs

-- `buf.width() - w - 1`.
abbrev pub left_of : Bitmap → Outcome ℤ
left_of b = checked_i64 (b.width -ℤ pos 128) >>= λ left. checked_i64 (left -ℤ pos 1)

unfoldable pub draw_test_pattern : List (List ℕ) → Bitmap → Screen → Outcome Screen
draw_test_pattern source b (cache, m) = left_of b >>= λ left.
    ((draw_rects b left 0 colors m >>= draw_lines b left points points) >>= λ m.
    (draw_str_fg source b left (pos (64 * 4)) 0x00ff00 digits (cache, m)
      >>= draw_str_fg source b left (pos (64 * 4 + 16)) 0x00ff00 letters))
