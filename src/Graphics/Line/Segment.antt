-- ===== src/Graphics/Line/Segment.antt =====
-- The pixels that `draw_line` of wasabi/src/graphics.rs paints.
use osdev_hikalium.Prelude.{
  ℕ, zero, suc, ◌+◌, ◌^◌, ◌≤◌, ◌<◌, ◌≡◌, refl, ◌∙◌, inl, inr, Bool-cases, Bool, true, false, not,
  ◌&&◌, ◌||◌, lt→ltb, leb, leb→le, if◌then◌else◌, min, arith,
}
use osdev_hikalium.Prelude.Int.{ℤ, pos, pos_part, pos-add}
use osdev_hikalium.Prelude.Usize.{ok}
use osdev_hikalium.Graphics.{
  Bitmap, Pixels, done, out_of_range, store, is_in_x_range, is_in_y_range,
}
use osdev_hikalium.Graphics.Address.{IsBitmap, address, is_in_x_range-pos, is_in_y_range-pos}
use osdev_hikalium.Graphics.Rect.{in_x_range-inv, in_y_range-inv, all_four}
use osdev_hikalium.Graphics.Paint.{Paints, nothing-Paints, store-Paints, Paints-trans, Paints-ext}
use osdev_hikalium.Graphics.Point.{draw_point-inside}
use osdev_hikalium.Graphics.Line.{point_of, draw_points, draw_line}
use osdev_hikalium.Graphics.Line.Slope.{nearest, nearest-IsNearest, calc_slope_point-runs}
use osdev_hikalium.Graphics.Line.Trace.{
  gap, step_sign, step-toward, toward-lt, traced, line_pixel, product_small, line_area, ends,
  gap_sides, rounds, gap-lt,
}

module _ (b : Bitmap) (wide lines stride : ℕ) (v : IsBitmap b wide lines stride) (color : ℕ) where
  module _ (by_x : Bool) (da db x0 y0 x1 y1 : ℕ) where
    -- The ends are in range, and the sides of the line are its gaps.
    record IsSegment : Type 0 where
      x0_lt : x0 < min wide stride
      x1_lt : x1 < min wide stride
      y0_lt : y0 < lines
      y1_lt : y1 < lines
      across : (if by_x then da else db) ≤ gap x0 x1
      down : (if by_x then db else da) ≤ gap y0 y1
      flat : db ≤ da
      narrow : min wide stride < 2 ^ 30
      low : lines < 2 ^ 30
      short : da < 2 ^ 30

    point_of-line_pixel :
        (r : ℕ)
        → IsSegment
        → r < da
        → (point_of by_x
              (pos x0)
              (pos y0)
              (step_sign x0 x1)
              (step_sign y0 y1)
              (pos r)
              (pos (nearest da db r))
            ≡ ok (
              pos (line_pixel by_x da db x0 y0 x1 y1 r).0,
              pos (line_pixel by_x da db x0 y0 x1 y1 r).1,
            ))
          × ((line_pixel by_x da db x0 y0 x1 y1 r).0 < min wide stride)
          × ((line_pixel by_x da db x0 y0 x1 y1 r).1 < lines)
    point_of-line_pixel r s lt =
        let near = (nearest-IsNearest da db r (omega arith) s.flat (omega arith)).within in
        let wide_ok : min wide stride < 2 ^ 62 = omega (arith, s.narrow) in
        let low_ok : lines < 2 ^ 62 = omega (arith, s.low) in
        elim (Bool-cases by_x) [
          | inl e ↦
              let kx : r ≤ gap x0 x1 = omega (arith, rw e at s.across) in
              let ky : nearest da db r ≤ gap y0 y1 = omega (arith, near, rw e at s.down) in
              rw e (
                rw
                    (
                      step-toward x0 x1 r (omega (arith, s.x0_lt)) (omega (arith, s.x1_lt)) kx,
                      step-toward y0 y1 (nearest da db r) (omega (arith, s.y0_lt))
                          (omega (arith, s.y1_lt)) ky,
                    )
                    refl,
                toward-lt x0 x1 r _ s.x0_lt s.x1_lt kx,
                toward-lt y0 y1 (nearest da db r) _ s.y0_lt s.y1_lt ky,
              )
          | inr e ↦
              let kx : nearest da db r ≤ gap x0 x1 = omega (arith, near, rw e at s.across) in
              let ky : r ≤ gap y0 y1 = omega (arith, rw e at s.down) in
              rw e (
                rw
                    (
                      step-toward x0 x1 (nearest da db r) (omega (arith, s.x0_lt))
                          (omega (arith, s.x1_lt)) kx,
                      step-toward y0 y1 r (omega (arith, s.y0_lt)) (omega (arith, s.y1_lt)) ky,
                    )
                    refl,
                toward-lt x0 x1 (nearest da db r) _ s.x0_lt s.x1_lt kx,
                toward-lt y0 y1 r _ s.y0_lt s.y1_lt ky,
              )
        ]

    draw_points-Paints :
        (n r : ℕ) (m : Pixels)
        → IsSegment
        → r + n ≤ da
        → (out : Pixels) × (draw_points b color by_x
              (pos da)
              (pos db)
              (pos x0)
              (pos y0)
              (step_sign x0 x1)
              (step_sign y0 y1)
              n
              (pos r)
              m
            ≡ ok (done out))
          × Paints b lines stride color (traced (line_pixel by_x da db x0 y0 x1 y1) r n) m out
    unfolding draw_points
    draw_points-Paints zero r m s h = (m, refl, nothing-Paints b lines stride color m)
    draw_points-Paints (suc n) r m s h =
        let at = point_of-line_pixel r s (omega arith) in
        let x = (line_pixel by_x da db x0 y0 x1 y1 r).0 in
        let y = (line_pixel by_x da db x0 y0 x1 y1 r).1 in
        let one = store-Paints b lines stride color x y m (omega (arith, at.1)) at.2 in
        let rest =
          draw_points-Paints n (r + 1) (store (address b stride x y) color m) s (omega arith) in
        let product =
          product_small db r (omega (arith, s.flat, s.short)) (omega (arith, s.short)) in
        (
          rest.0,
          rw
              (
                calc_slope_point-runs da db r s.flat (omega arith) (omega arith)
                    (omega (arith, s.short)) (omega (arith, product, s.short)),
                at.0,
                draw_point-inside b wide lines stride v color x y m at.1 at.2,
                pos-add r 1,
              )
              rest.1,
          Paints-ext b lines stride color _ _ m rest.0 (λ i j ix iy. refl)
              (Paints-trans b lines stride color _ _ m _ rest.0 one rest.2),
        )

module _ (b : Bitmap) (wide lines stride : ℕ) (v : IsBitmap b wide lines stride) (color : ℕ) where
  draw_line-outside :
      (x0 y0 x1 y1 : ℤ) (m : Pixels)
      → ends b x0 y0 x1 y1 ≡ false
      → draw_line b color x0 y0 x1 y1 m ≡ ok (out_of_range m)
  unfolding draw_line
  draw_line-outside x0 y0 x1 y1 m out =
      let test : (not (is_in_x_range b x0)
            || not (is_in_x_range b x1)
            || not (is_in_y_range b y0)
            || not (is_in_y_range b y1))
          ≡ true =
        ground (arith, out) in
      rw test refl

  pub draw_line-inside :
      (x0 y0 x1 y1 : ℕ) (m : Pixels)
      → min wide stride < 2 ^ 30
      → lines < 2 ^ 30
      → x0 < min wide stride
      → x1 < min wide stride
      → y0 < lines
      → y1 < lines
      → (out : Pixels) × (draw_line b color (pos x0) (pos y0) (pos x1) (pos y1) m ≡ ok (done out))
        × Paints b lines stride color (line_area x0 y0 x1 y1) m out
  unfolding draw_line
  draw_line-inside x0 y0 x1 y1 m narrow low hx0 hx1 hy0 hy1 =
      let across = gap_sides x0 x1 (omega (arith, hx0, narrow)) (omega (arith, hx1, narrow)) in
      let down = gap_sides y0 y1 (omega arith) (omega arith) in
      let in_x0 = is_in_x_range-pos b wide lines stride v x0 ∙ lt→ltb x0 _ hx0 in
      let in_x1 = is_in_x_range-pos b wide lines stride v x1 ∙ lt→ltb x1 _ hx1 in
      let in_y0 = is_in_y_range-pos b wide lines stride v y0 ∙ lt→ltb y0 _ hy0 in
      let in_y1 = is_in_y_range-pos b wide lines stride v y1 ∙ lt→ltb y1 _ hy1 in
      let wide_gap = gap-lt x0 x1 (min wide stride) hx0 hx1 in
      let high_gap = gap-lt y0 y1 lines hy0 hy1 in
      elim (Bool-cases (leb (gap y0 y1) (gap x0 x1))) [
        | inl flat ↦
            let flat_sum : leb (gap y0 y1 + 0) (gap x0 x1 + 0) ≡ true = ground (arith, flat) in
            let drawn =
              draw_points-Paints b wide lines stride v color true (gap x0 x1) (gap y0 y1) x0 y0 x1
                y1 (gap x0 x1) 0 m
                (record {
                  x0_lt = hx0;
                  x1_lt = hx1;
                  y0_lt = hy0;
                  y1_lt = hy1;
                  across = omega arith;
                  down = omega arith;
                  flat = leb→le _ _ flat;
                  narrow = narrow;
                  low = low;
                  short = omega (arith, wide_gap, narrow, low);
                })
                (omega arith) in
            (
              drawn.0,
              rw
                  (
                    in_x0,
                    in_x1,
                    in_y0,
                    in_y1,
                    across.0,
                    across.1,
                    down.0,
                    down.1,
                    flat_sum,
                    rounds (gap x0 x1),
                  )
                  drawn.1,
              Paints-ext b lines stride color _ _ m drawn.0 (λ x y ix iy. rw flat refl) drawn.2,
            )
        | inr steep ↦
            let steep_sum : leb (gap y0 y1 + 0) (gap x0 x1 + 0) ≡ false = ground (arith, steep) in
            let drawn =
              draw_points-Paints b wide lines stride v color false (gap y0 y1) (gap x0 x1) x0 y0 x1
                y1 (gap y0 y1) 0 m
                (record {
                  x0_lt = hx0;
                  x1_lt = hx1;
                  y0_lt = hy0;
                  y1_lt = hy1;
                  across = omega arith;
                  down = omega arith;
                  flat = ground (arith, steep);
                  narrow = narrow;
                  low = low;
                  short = omega (arith, high_gap, narrow, low);
                })
                (omega arith) in
            (
              drawn.0,
              rw
                  (
                    in_x0,
                    in_x1,
                    in_y0,
                    in_y1,
                    across.0,
                    across.1,
                    down.0,
                    down.1,
                    steep_sum,
                    rounds (gap y0 y1),
                  )
                  drawn.1,
              Paints-ext b lines stride color _ _ m drawn.0 (λ x y ix iy. rw steep refl) drawn.2,
            )
      ]

  draw_line-found :
      (x0 y0 x1 y1 : ℤ) (ax ay bx by : ℕ) (m : Pixels)
      → min wide stride < 2 ^ 30
      → lines < 2 ^ 30
      → (x0 ≡ pos ax) × (ax < min wide stride)
      → (x1 ≡ pos bx) × (bx < min wide stride)
      → (y0 ≡ pos ay) × (ay < lines)
      → (y1 ≡ pos by) × (by < lines)
      → (out : Pixels) × (draw_line b color x0 y0 x1 y1 m ≡ ok (done out))
        × Paints b lines stride color
            (line_area (pos_part x0) (pos_part y0) (pos_part x1) (pos_part y1))
            m
            out
  draw_line-found x0 y0 x1 y1 ax ay bx by m narrow low ex0 ex1 ey0 ey1 =
      rw (ex0.0, ex1.0, ey0.0, ey1.0)
        (draw_line-inside ax ay bx by m narrow low ex0.1 ex1.1 ey0.1 ey1.1)

  -- On a bitmap whose lines lie in memory, with fewer than 2 ^ 30 columns and lines, draw_line
  -- returns without a panic: Ok if both ends are in range, and else its error. If they are, it
  -- paints one pixel for each step along the longer side, in the other direction the nearest to
  -- the exact line, without the end itself; in either case no other pixel and no memory outside
  -- the bitmap changes.
  pub draw_line-Paints :
      (x0 y0 x1 y1 : ℤ) (m : Pixels)
      → min wide stride < 2 ^ 30
      → lines < 2 ^ 30
      → (out : Pixels) × (draw_line b color x0 y0 x1 y1 m
          ≡ ok (if ends b x0 y0 x1 y1 then done out else out_of_range out))
        × Paints b lines stride color
            (λ x y.
              ends b x0 y0 x1 y1
              && line_area (pos_part x0) (pos_part y0) (pos_part x1) (pos_part y1) x y)
            m
            out
  draw_line-Paints x0 y0 x1 y1 m narrow low = elim (Bool-cases (ends b x0 y0 x1 y1)) [
    | inr out ↦ (
      m,
      rw (out, draw_line-outside x0 y0 x1 y1 m out) refl,
      Paints-ext b lines stride color (λ x y. false) _ m m (λ x y ix iy. rw out refl)
          (nothing-Paints b lines stride color m),
    )
    | inl c ↦
        let parts =
          all_four (is_in_x_range b x0) (is_in_x_range b x1) (is_in_y_range b y0)
            (is_in_y_range b y1) c in
        let ax = in_x_range-inv b wide lines stride v color x0 parts.0 in
        let bx = in_x_range-inv b wide lines stride v color x1 parts.1 in
        let ay = in_y_range-inv b wide lines stride v color y0 parts.2 in
        let by = in_y_range-inv b wide lines stride v color y1 parts.3 in
        let drawn =
          draw_line-found x0 y0 x1 y1 ax.0 ay.0 bx.0 by.0 m narrow low (ax.1, ax.2) (bx.1, bx.2)
            (ay.1, ay.2) (by.1, by.2) in
        (
          drawn.0,
          rw c drawn.1,
          Paints-ext b lines stride color _ _ m drawn.0 (λ i j ix iy. rw c refl) drawn.2,
        )
  ]
