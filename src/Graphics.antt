-- ===== src/Graphics.antt =====
-- The bitmaps of wasabi/src/graphics.rs and the drawing of points, rectangles and lines. Memory holds a
-- `u32` at an address. An error is always "Out of Range" and keeps what was drawn before it.
use osdev_hikalium.Prelude.{
  ℕ, zero, suc, ◌+◌, ◌*◌, ◌^◌, Bool, true, false, not, ◌&&◌, ◌||◌, ltb, ◌==◌, if◌then◌else◌, Option,
  none, some,
}
use osdev_hikalium.Prelude.Int.{
  ℤ, pos, ◌+ℤ◌, ◌-ℤ◌, ◌*ℤ◌, ltb_ℤ, leb_ℤ, min_ℤ, checked_i64, as_usize, range_length, abs_ℤ, signum,
  quot, pos_part,
}
use osdev_hikalium.Prelude.Usize.{Outcome, ok, panic, fault, ◌>>=◌, word_mod}
pub mod Address
pub mod Paint
pub mod Point
pub mod Rect
pub mod Line
pub mod Font
pub mod Pattern
mod Tests

abbrev pub Pixels : Type 0
Pixels = ℕ → ℕ

-- What the methods of the trait `Bitmap` return.
pub record Bitmap : Type 0 where
  pub bytes_per_pixel : ℤ
  pub pixels_per_line : ℤ
  pub width : ℤ
  pub height : ℤ
  pub buf_mut : ℕ

-- `Result<()>` with the memory.
pub data Drawn : Type 0 where
  done : Pixels → Drawn
  out_of_range : Pixels → Drawn

-- The memory after a call of which the result is dropped.
abbrev pub drawn_pixels : Drawn → Pixels
drawn_pixels (done m) = m
drawn_pixels (out_of_range m) = m

-- `unchecked_pixel_at_mut`. An address past the end of the address space is undefined.
unfoldable pub unchecked_pixel_at_mut : Bitmap → ℤ → ℤ → Outcome ℕ
unchecked_pixel_at_mut b x y = checked_i64 (y *ℤ b.pixels_per_line) >>= λ line.
    (checked_i64 (line +ℤ x) >>= λ pixel.
    (checked_i64 (pixel *ℤ b.bytes_per_pixel) >>= λ offset.
    (if ltb (b.buf_mut + as_usize offset) word_mod
      then ok (b.buf_mut + as_usize offset)
      else fault)))

unfoldable pub is_in_x_range : Bitmap → ℤ → Bool
is_in_x_range b px = leb_ℤ (pos 0) px && ltb_ℤ px (min_ℤ b.width b.pixels_per_line)

unfoldable pub is_in_y_range : Bitmap → ℤ → Bool
is_in_y_range b py = leb_ℤ (pos 0) py && ltb_ℤ py b.height

-- `pixel_at_mut`: the address, if the pixel is in range.
unfoldable pub pixel_at_mut : Bitmap → ℤ → ℤ → Outcome (Option ℕ)
pixel_at_mut b x y =
    if is_in_x_range b x && is_in_y_range b y
    then (unchecked_pixel_at_mut b x y >>= λ a. ok (some a))
    else ok none

abbrev pub store : ℕ → ℕ → Pixels → Pixels
store a color m p = if a == p then color else m p

unfoldable pub unchecked_draw_point : Bitmap → ℕ → ℤ → ℤ → Pixels → Outcome Pixels
unchecked_draw_point b color x y m = unchecked_pixel_at_mut b x y >>= λ a. ok (store a color m)

unfoldable pub draw_point : Bitmap → ℕ → ℤ → ℤ → Pixels → Outcome Drawn
draw_point b color x y m = pixel_at_mut b x y >>= λ found. elim found [
  | none ↦ ok (out_of_range m)
  | some a ↦ ok (done (store a color m))
]

-- `for x in px..px + w`, at column x with n to go.
unfoldable pub fill_row : Bitmap → ℕ → ℤ → ℕ → ℤ → Pixels → Outcome Pixels
fill_row b color y zero x m = ok m
fill_row b color y (suc n) x m =
    unchecked_draw_point b color x y m >>= fill_row b color y n (x +ℤ pos 1)

-- `for y in py..py + h`, at line y with n to go.
unfoldable pub fill_rows : Bitmap → ℕ → ℤ → ℤ → ℕ → ℤ → Pixels → Outcome Pixels
fill_rows b color px w zero y m = ok m
fill_rows b color px w (suc n) y m =
    (checked_i64 (px +ℤ w) >>= λ right. fill_row b color y (range_length px right) px m)
    >>= fill_rows b color px w n (y +ℤ pos 1)

-- The last column or line of a side of the rectangle.
abbrev pub last_of : ℤ → ℤ → Outcome ℤ
last_of p n = checked_i64 (p +ℤ n) >>= λ end. checked_i64 (end -ℤ pos 1)

unfoldable pub fill_rect : Bitmap → ℕ → ℤ → ℤ → ℤ → ℤ → Pixels → Outcome Drawn
fill_rect b color px py w h m =
    if not (is_in_x_range b px) || not (is_in_y_range b py)
    then ok (out_of_range m)
    else (last_of px w >>= λ right.
        (if not (is_in_x_range b right)
          then ok (out_of_range m)
          else (last_of py h >>= λ bottom.
              (if not (is_in_y_range b bottom)
                then ok (out_of_range m)
                else (checked_i64 (py +ℤ h) >>= λ end.
                    (fill_rows b color px w (range_length py end) py m >>= λ out.
                    ok (done out)))))))
