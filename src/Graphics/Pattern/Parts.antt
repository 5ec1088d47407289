-- ===== src/Graphics/Pattern/Parts.antt =====
-- The rectangles and lines of `draw_test_pattern` of wasabi/src/graphics.rs.
use osdev_hikalium.Prelude.{
  ℕ, ◌+◌, ◌-◌, ◌*◌, ◌^◌, ◌≤◌, ◌<◌, ◌≡◌, refl, ◌∙◌, inl, inr, Bool-cases, Bool, false, ◌&&◌, ltb,
  lt→ltb, leb, min, List, [], ◌∷◌, ◌++◌, length, All, arith,
}
use osdev_hikalium.Prelude.Int.{
  ℤ, pos, negsuc, ◌+ℤ◌, ◌-ℤ◌, checked_i64-pos, pos-add, pos-mul, pos-sub,
}
use osdev_hikalium.Prelude.Usize.{ok, panic, ◌>>=◌}
use osdev_hikalium.Graphics.{Bitmap, Pixels, is_in_x_range, is_in_y_range, fill_rect}
use osdev_hikalium.Graphics.Address.{IsBitmap, is_in_x_range-pos, is_in_y_range-pos}
use osdev_hikalium.Graphics.Paint.{Paints}
use osdev_hikalium.Graphics.Rect.{IsSmall, in_rect, corners, fill_rect-inside, fill_rect-outside}
use osdev_hikalium.Graphics.Line.Trace.{line_area}
use osdev_hikalium.Graphics.Line.Segment.{draw_line-inside}
use osdev_hikalium.Graphics.Pattern.{
  not_u32, expect_drawn, draw_pair, draw_rects, draw_lines_from, draw_lines,
}
use osdev_hikalium.Graphics.Pattern.Layers.{Layer, Shows, nothing-Shows, Paints-Shows, Shows-append}

abbrev pub square : ℕ → ℕ → ℕ → ℕ → Bool
square x y i j = in_rect (pos x) (pos y) (pos 64) (pos 64) i j

abbrev pub rect_layers : ℕ → ℕ → List ℕ → List Layer
rect_layers left i [] = []
rect_layers left i (c ∷ cs) =
    (c, square left (i * 64))
    ∷ (not_u32 c, square (left + 64) (i * 64))
    ∷ rect_layers left (i + 1) cs

abbrev pub layers_from : ℕ → ℕ × ℕ → List (ℕ × ℕ) → List Layer
layers_from left p [] = []
layers_from left p (q ∷ qs) =
    (0xffffff, line_area (left + p.0) p.1 (left + q.0) q.1) ∷ layers_from left p qs

abbrev pub line_layers : ℕ → List (ℕ × ℕ) → List (ℕ × ℕ) → List Layer
line_layers left [] qs = []
line_layers left (p ∷ ps) qs = layers_from left p qs ++ line_layers left ps qs

small64 : IsSmall (pos 64)
small64 = (omega arith, omega arith)

-- A point of the pattern.
abbrev pub Near : ℕ × ℕ → Type 0
Near p = (p.0 ≤ 128) × (p.1 ≤ 128)

module _ (b : Bitmap) (wide lines stride : ℕ) (v : IsBitmap b wide lines stride) where
  square-inside :
      (color x y : ℕ) (m : Pixels)
      → x + 64 ≤ min wide stride
      → y + 64 ≤ lines
      → (out : Pixels) × ((fill_rect b color (pos x) (pos y) (pos 64) (pos 64) m >>= expect_drawn)
          ≡ ok out)
        × Paints b lines stride color (square x y) m out
  square-inside color x y m hx hy =
      let across : pos x +ℤ pos 64 -ℤ pos 1 ≡ pos (x + 64 - 1) =
        rw (pos-add x 64) (pos-sub (x + 64) 1 (omega arith)) in
      let down : pos y +ℤ pos 64 -ℤ pos 1 ≡ pos (y + 64 - 1) =
        rw (pos-add y 64) (pos-sub (y + 64) 1 (omega arith)) in
      let drawn =
        fill_rect-inside b wide lines stride v color x y (pos 64) (pos 64) m small64 small64
          (omega (arith, hx)) (omega arith)
          (rw across
            (is_in_x_range-pos b wide lines stride v (x + 64 - 1) ∙ lt→ltb _ _ (omega (arith, hx))))
          (rw down
            (is_in_y_range-pos b wide lines stride v (y + 64 - 1) ∙ lt→ltb _ _ (omega arith))) in
      (drawn.0, rw drawn.1 refl, drawn.2)

  draw_pair-Shows :
      (left y c : ℕ) (ls : List Layer) (m : Pixels)
      → left + 128 ≤ min wide stride
      → left < 2 ^ 30
      → y + 64 ≤ lines
      → (out : Pixels) × (draw_pair b (pos left) (pos y) c m ≡ ok out)
        × ((after : Pixels)
            → Shows b lines stride ls out after
            → Shows b lines stride
                ((c, square left y) ∷ (not_u32 c, square (left + 64) y) ∷ ls)
                m
                after)
  unfolding draw_pair
  draw_pair-Shows left y c ls m hx small hy =
      let one = square-inside c left y m (omega (arith, hx)) hy in
      let two = square-inside (not_u32 c) (left + 64) y one.0 (omega (arith, hx)) hy in
      (
        two.0,
        rw (one.1, pos-add left 64, checked_i64-pos (left + 64) (omega arith)) two.1,
        λ after s.
            Paints-Shows b lines stride c _ _ m one.0 after one.2
              (Paints-Shows b lines stride (not_u32 c) _ _ one.0 two.0 after two.2 s),
      )

  pub draw_rects-Shows :
      (left i : ℕ) (cs : List ℕ) (m : Pixels)
      → left + 128 ≤ min wide stride
      → left < 2 ^ 30
      → (i + length cs) * 64 ≤ lines
      → lines < 2 ^ 30
      → (out : Pixels) × (draw_rects b (pos left) i cs m ≡ ok out)
        × Shows b lines stride (rect_layers left i cs) m out
  unfolding draw_rects
  draw_rects-Shows left i [] m hx small hy low = (m, refl, nothing-Shows b lines stride m)
  draw_rects-Shows left i (c ∷ cs) m hx small hy low =
      let pair =
        draw_pair-Shows left (i * 64) c (rect_layers left (i + 1) cs) m hx small (omega arith) in
      let rest = draw_rects-Shows left (i + 1) cs pair.0 hx small (omega arith) low in
      (
        rest.0,
        rw (pos-mul i 64, checked_i64-pos (i * 64) (omega arith), pair.1) rest.1,
        pair.2 rest.0 rest.2,
      )

  draw_lines_from-Shows :
      (left : ℕ) (p : ℕ × ℕ) (qs : List (ℕ × ℕ)) (m : Pixels)
      → left + 128 < min wide stride
      → min wide stride < 2 ^ 30
      → 128 < lines
      → lines < 2 ^ 30
      → Near p
      → All Near qs
      → (out : Pixels) × (draw_lines_from b (pos left) p qs m ≡ ok out)
        × Shows b lines stride (layers_from left p qs) m out
  unfolding draw_lines_from
  draw_lines_from-Shows left p [] m hx narrow hy low np nqs =
      (m, refl, nothing-Shows b lines stride m)
  draw_lines_from-Shows left p (q ∷ qs) m hx narrow hy low np nqs =
      let drawn =
        draw_line-inside b wide lines stride v 0xffffff (left + p.0) p.1 (left + q.0) q.1 m narrow
          low (omega (arith, np, hx)) (omega (arith, nqs.0, hx)) (omega (arith, np))
          (omega (arith, nqs.0)) in
      let rest = draw_lines_from-Shows left p qs drawn.0 hx narrow hy low np nqs.1 in
      (
        rest.0,
        rw
            (
              pos-add left p.0,
              checked_i64-pos (left + p.0) (omega (arith, np, hx, narrow)),
              pos-add left q.0,
              checked_i64-pos (left + q.0) (omega (arith, nqs.0, hx, narrow)),
              drawn.1,
            )
            rest.1,
        Paints-Shows b lines stride 0xffffff _ _ m drawn.0 rest.0 drawn.2 rest.2,
      )

  pub draw_lines-Shows :
      (left : ℕ) (ps qs : List (ℕ × ℕ)) (m : Pixels)
      → left + 128 < min wide stride
      → min wide stride < 2 ^ 30
      → 128 < lines
      → lines < 2 ^ 30
      → All Near ps
      → All Near qs
      → (out : Pixels) × (draw_lines b (pos left) ps qs m ≡ ok out)
        × Shows b lines stride (line_layers left ps qs) m out
  unfolding draw_lines
  draw_lines-Shows left [] qs m hx narrow hy low nps nqs = (m, refl, nothing-Shows b lines stride m)
  draw_lines-Shows left (p ∷ ps) qs m hx narrow hy low nps nqs =
      let first = draw_lines_from-Shows left p qs m hx narrow hy low nps.0 nqs in
      let rest = draw_lines-Shows left ps qs first.0 hx narrow hy low nps.1 nqs in
      (rest.0, rw first.1 rest.1, Shows-append b lines stride _ _ m first.0 rest.0 first.2 rest.2)

  all_no : (a c d e : Bool) → e ≡ false → (a && c && (d && e)) ≡ false
  all_no a c d e h = ground (arith, h)

  square-panics :
      (color : ℕ) (x : ℤ) (y : ℕ) (m : Pixels)
      → lines < y + 64
      → (fill_rect b color x (pos y) (pos 64) (pos 64) m >>= expect_drawn) ≡ panic
  square-panics color x y m hy =
      let down : pos y +ℤ pos 64 -ℤ pos 1 ≡ pos (y + 64 - 1) =
        rw (pos-add y 64) (pos-sub (y + 64) 1 (omega arith)) in
      let low : ltb (y + 64 - 1) lines ≡ false = ground (arith, hy) in
      let out =
        all_no (is_in_x_range b x) (is_in_y_range b (pos y))
          (is_in_x_range b (x +ℤ pos 64 -ℤ pos 1)) _
          (rw down (is_in_y_range-pos b wide lines stride v (y + 64 - 1) ∙ low)) in
      rw
        (fill_rect-outside b wide lines stride v color x (pos y) (pos 64) (pos 64) m small64 small64
          out)
        refl

  draw_pair-panics :
      (x : ℤ) (y c : ℕ) (m : Pixels)
      → (fill_rect b c x (pos y) (pos 64) (pos 64) m >>= expect_drawn) ≡ panic
      → draw_pair b x (pos y) c m ≡ panic
  unfolding draw_pair
  draw_pair-panics x y c m h = rw h refl

  pub draw_rects-low :
      (left i : ℕ) (cs : List ℕ) (m : Pixels)
      → left + 128 ≤ min wide stride
      → left < 2 ^ 30
      → i * 64 ≤ lines
      → lines < (i + length cs) * 64
      → lines < 2 ^ 30
      → draw_rects b (pos left) i cs m ≡ panic
  unfolding draw_rects
  draw_rects-low left i [] m hx small hy lt low = absurd (omega arith)
  draw_rects-low left i (c ∷ cs) m hx small hy lt low =
      let product = checked_i64-pos (i * 64) (omega arith) in
      elim (Bool-cases (leb ((i + 1) * 64) lines)) [
        | inr short ↦
            rw
              (
                pos-mul i 64,
                product,
                draw_pair-panics (pos left) (i * 64) c m
                    (square-panics c (pos left) (i * 64) m (ground (arith, short))),
              )
              refl
        | inl room ↦
            let pair = draw_pair-Shows left (i * 64) c [] m hx small (ground (arith, room)) in
            rw (pos-mul i 64, product, pair.1)
              (draw_rects-low left (i + 1) cs pair.0 hx small (ground (arith, room)) (omega arith)
                low)
      ]

  pub draw_rects-narrow :
      (n c : ℕ) (cs : List ℕ) (m : Pixels) → draw_rects b (negsuc n) 0 (c ∷ cs) m ≡ panic
  unfolding draw_rects is_in_x_range
  draw_rects-narrow n c cs m =
      let out : corners b (negsuc n) (pos 0) (pos 64) (pos 64) ≡ false = ground arith in
      let first : (fill_rect b c (negsuc n) (pos 0) (pos 64) (pos 64) m >>= expect_drawn) ≡ panic =
        rw
          (fill_rect-outside b wide lines stride v c (negsuc n) (pos 0) (pos 64) (pos 64) m small64
            small64 out)
          refl in
      rw (pos-mul 0 64, draw_pair-panics (negsuc n) 0 c m first) refl
