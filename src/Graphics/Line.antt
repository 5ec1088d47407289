-- ===== src/Graphics/Line.antt =====
-- `calc_slope_point` and `draw_line` of wasabi/src/graphics.rs.
use osdev_hikalium.Prelude.{
  ℕ, zero, suc, ◌+◌, ◌*◌, Bool, true, false, not, ◌&&◌, ◌||◌, ◌==◌, if◌then◌else◌, Option, none,
  some,
}
use osdev_hikalium.Prelude.Int.{
  ℤ, pos, pos_part, neg_part, ◌+ℤ◌, ◌-ℤ◌, ◌*ℤ◌, ltb_ℤ, leb_ℤ, checked_i64, abs_ℤ, signum, quot,
  range_length,
}
use osdev_hikalium.Prelude.Usize.{Outcome, ok, ◌>>=◌}
use osdev_hikalium.Graphics.{
  Bitmap, Pixels, Drawn, done, out_of_range, draw_point, is_in_x_range, is_in_y_range,
}
pub mod Slope
pub mod Trace
pub mod Segment

-- Where the division is made, `da` is above 0.
unfoldable pub calc_slope_point : ℤ → ℤ → ℤ → Outcome (Option ℤ)
calc_slope_point da db ia =
    if ltb_ℤ da db
    then ok none
    else if pos_part da + neg_part da == 0
    then ok (some (pos 0))
    else if leb_ℤ (pos 0) ia && leb_ℤ ia da
    then (checked_i64 (pos 2 *ℤ db) >>= λ double.
        (checked_i64 (double *ℤ ia) >>= λ product.
        (checked_i64 (product +ℤ da) >>= λ sum. ok (some (quot (quot sum (pos_part da)) 2)))))
    else ok none

-- `z + r * s`.
abbrev pub moved : ℤ → ℤ → ℤ → Outcome ℤ
moved z r s = checked_i64 (r *ℤ s) >>= λ offset. checked_i64 (z +ℤ offset)

-- The point of a round: r steps along the major axis, which is x if `by_x`, and s along the other.
abbrev pub point_of : Bool → ℤ → ℤ → ℤ → ℤ → ℤ → ℤ → Outcome (ℤ × ℤ)
point_of by_x x0 y0 sx sy r s = moved x0 (if by_x then r else s) sx >>= λ x.
    (moved y0 (if by_x then s else r) sy >>= λ y. ok (x, y))

-- The loop over the points of `0..da`, at round r with n to go.
unfoldable pub draw_points :
    Bitmap → ℕ → Bool → ℤ → ℤ → ℤ → ℤ → ℤ → ℤ → ℕ → ℤ → Pixels → Outcome Drawn
draw_points b color by_x da db x0 y0 sx sy zero r m = ok (done m)
draw_points b color by_x da db x0 y0 sx sy (suc n) r m =
    let rest : Pixels → Outcome Drawn =
      λ m. draw_points b color by_x da db x0 y0 sx sy n (r +ℤ pos 1) m in
    calc_slope_point da db r >>= λ found. elim found [
      | none ↦ rest m
      | some s ↦ point_of by_x x0 y0 sx sy r s >>= λ point.
          (draw_point b color point.0 point.1 m >>= λ drawn. elim drawn [
            | done m ↦ rest m
            | out_of_range m ↦ ok (out_of_range m)
          ])
    ]

unfoldable pub draw_line : Bitmap → ℕ → ℤ → ℤ → ℤ → ℤ → Pixels → Outcome Drawn
draw_line b color x0 y0 x1 y1 m =
    if not (is_in_x_range b x0)
      || not (is_in_x_range b x1)
      || not (is_in_y_range b y0)
      || not (is_in_y_range b y1)
    then ok (out_of_range m)
    else (checked_i64 (x1 -ℤ x0) >>= λ d.
        (checked_i64 (abs_ℤ d) >>= λ dx.
        (checked_i64 (y1 -ℤ y0) >>= λ e.
        (checked_i64 (abs_ℤ e) >>= λ dy.
        (let sx = signum d in
          let sy = signum e in
          if leb_ℤ dy dx
          then draw_points b color true dx dy x0 y0 sx sy (range_length (pos 0) dx) (pos 0) m
          else draw_points b color false dy dx x0 y0 sx sy (range_length (pos 0) dy) (pos 0) m)))))
