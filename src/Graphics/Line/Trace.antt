-- ===== src/Graphics/Line/Trace.antt =====
-- The pixels of a line between two points of a bitmap of wasabi/src/graphics.rs.
use osdev_hikalium.Prelude.{
  ℕ, zero, suc, ◌+◌, ◌-◌, ◌*◌, ◌^◌, ◌≤◌, ◌<◌, ◌≡◌, Bool, true, false, ◌&&◌, ◌||◌, ◌==◌, ltb, leb,
  if◌then◌else◌, arith,
}
use osdev_hikalium.Prelude.Int.{ℤ, pos, ◌+ℤ◌, ◌-ℤ◌, ◌*ℤ◌, checked_i64, abs_ℤ, signum, range_length}
use osdev_hikalium.Prelude.Usize.{ok}
use osdev_hikalium.Graphics.{Bitmap, is_in_x_range, is_in_y_range}
use osdev_hikalium.Graphics.Line.{moved}
use osdev_hikalium.Graphics.Line.Slope.{nearest}

-- How far apart two coordinates are, and the one that is k steps from the first to the second.
abbrev pub gap : ℕ → ℕ → ℕ
gap a b = (a - b) + (b - a)

abbrev pub toward : ℕ → ℕ → ℕ → ℕ
toward a b k = if ltb b a then a - k else a + k

abbrev pub step_sign : ℕ → ℕ → ℤ
step_sign a b = signum (pos b -ℤ pos a)

pub step-toward :
    (a b k : ℕ)
    → a < 2 ^ 62
    → b < 2 ^ 62
    → k ≤ gap a b
    → moved (pos a) (pos k) (step_sign a b) ≡ ok (pos (toward a b k))
unfolding ◌+ℤ◌ ◌-ℤ◌ ◌*ℤ◌
step-toward a b k ha hb hk = ground arith

pub toward-lt : (a b k bound : ℕ) → a < bound → b < bound → k ≤ gap a b → toward a b k < bound
toward-lt a b k bound ha hb hk = ground arith

-- The n pixels from number i on of a sequence.
abbrev pub traced : (ℕ → ℕ × ℕ) → ℕ → ℕ → ℕ → ℕ → Bool
traced at i zero x y = false
traced at i (suc n) x y = (x == (at i).0 && y == (at i).1) || traced at (i + 1) n x y

-- The pixel of round r: r steps along the longer side, and the nearest whole number of steps along
-- the other.
abbrev pub line_pixel : Bool → ℕ → ℕ → ℕ → ℕ → ℕ → ℕ → ℕ → ℕ × ℕ
line_pixel by_x da db x0 y0 x1 y1 r = (
  toward x0 x1 (if by_x then r else nearest da db r),
  toward y0 y1 (if by_x then nearest da db r else r),
)

pub product_small : (a b : ℕ) → a < 2 ^ 30 → b < 2 ^ 30 → a * b < 2 ^ 60
product_small a b ha hb = let one : a * b ≤ 2 ^ 30 * b = grind arith in omega (arith, one)

-- The pixels of a line: along x if the line is at least as wide as high, else along y. The end
-- itself is left out.
abbrev pub line_area : ℕ → ℕ → ℕ → ℕ → ℕ → ℕ → Bool
line_area x0 y0 x1 y1 x y =
    if leb (gap y0 y1) (gap x0 x1)
    then traced (line_pixel true (gap x0 x1) (gap y0 y1) x0 y0 x1 y1) 0 (gap x0 x1) x y
    else traced (line_pixel false (gap y0 y1) (gap x0 x1) x0 y0 x1 y1) 0 (gap y0 y1) x y

-- Both ends are in range, in the order of the tests.
abbrev pub ends : Bitmap → ℤ → ℤ → ℤ → ℤ → Bool
ends b x0 y0 x1 y1 =
    is_in_x_range b x0 && is_in_x_range b x1 && (is_in_y_range b y0 && is_in_y_range b y1)

pub gap_sides :
    (a b : ℕ)
    → a < 2 ^ 30
    → b < 2 ^ 30
    → (checked_i64 (pos b -ℤ pos a) ≡ ok (pos b -ℤ pos a))
      × (checked_i64 (abs_ℤ (pos b -ℤ pos a)) ≡ ok (pos (gap a b)))
unfolding ◌-ℤ◌
gap_sides a b ha hb = ground arith

pub rounds : (n : ℕ) → range_length (pos 0) (pos n) ≡ n
rounds n = omega arith

pub gap-lt : (a b bound : ℕ) → a < bound → b < bound → gap a b < bound
gap-lt a b bound ha hb = ground arith
