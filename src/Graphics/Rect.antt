-- ===== src/Graphics/Rect.antt =====
-- `fill_rect` of wasabi/src/graphics.rs paints the rectangle if it lies within the bitmap.
use osdev_hikalium.Prelude.{
  ℕ, zero, suc, ◌+◌, ◌*◌, ◌^◌, ◌≤◌, ◌<◌, ◌≡◌, refl, sym, ◌∙◌, inl, inr, Bool-cases, Bool, true,
  false, ◌&&◌, ltb, lt→ltb, leb, ◌==◌, if◌then◌else◌, min, arith,
}
use osdev_hikalium.Prelude.Int.{
  ℤ, pos, negsuc, pos_part, neg_part, ◌+ℤ◌, ◌-ℤ◌, ltb_ℤ, leb_ℤ, checked_i64, pos-add, range_length,
}
use osdev_hikalium.Prelude.Usize.{ok}
use osdev_hikalium.Graphics.{
  Bitmap, Pixels, done, out_of_range, store, unchecked_draw_point, is_in_x_range, is_in_y_range,
  fill_row, fill_rows, fill_rect, last_of,
}
use osdev_hikalium.Graphics.Address.{
  IsBitmap, address, is_in_x_range-pos, is_in_y_range-pos, unchecked_pixel_at_mut-address,
}
use osdev_hikalium.Graphics.Paint.{Paints, nothing-Paints, store-Paints, Paints-trans, Paints-ext}

-- The columns from p on, w of them, none if w is not above 0.
abbrev pub between : ℤ → ℤ → ℕ → Bool
between p w x = leb_ℤ p (pos x) && ltb_ℤ (pos x) (p +ℤ w)

abbrev pub in_rect : ℤ → ℤ → ℤ → ℤ → ℕ → ℕ → Bool
in_rect px py w h x y = between px w x && between py h y

-- Both corners are in range.
abbrev pub corners : Bitmap → ℤ → ℤ → ℤ → ℤ → Bool
corners b px py w h =
    is_in_x_range b px
    && is_in_y_range b py
    && (is_in_x_range b (px +ℤ w -ℤ pos 1) && is_in_y_range b (py +ℤ h -ℤ pos 1))

-- A size so small that no sum leaves the range of `i64`.
abbrev pub IsSmall : ℤ → Type 0
IsSmall w = (pos_part w < 2 ^ 62) × (neg_part w < 2 ^ 62)

abbrev span : ℕ → ℕ → ℕ → Bool
span p n x = leb p x && ltb x (p + n)

between-span : (p x : ℕ) (w : ℤ) → between (pos p) w x ≡ span p (pos_part w) x
unfolding ◌+ℤ◌
between-span p x w = ground arith

-- Neither `p + w` nor `p + w - 1` leaves the range.
sum_parts :
    (p : ℕ) (w : ℤ)
    → p < 2 ^ 62
    → IsSmall w
    → (pos_part (pos p +ℤ w) < 2 ^ 63) × (neg_part (pos p +ℤ w) < 2 ^ 62)
unfolding ◌+ℤ◌
sum_parts p w h s = ground arith

small_sum : (p : ℕ) (w : ℤ) → p < 2 ^ 62 → IsSmall w → checked_i64 (pos p +ℤ w) ≡ ok (pos p +ℤ w)
small_sum p w h s = let parts = sum_parts p w h s in ground (arith, parts)

small_pred :
    (z : ℤ) → pos_part z < 2 ^ 63 → neg_part z < 2 ^ 62 → checked_i64 (z -ℤ pos 1) ≡ ok (z -ℤ pos 1)
unfolding ◌-ℤ◌
small_pred z upper lower = ground arith

last_of-small :
    (p : ℕ) (w : ℤ) → p < 2 ^ 62 → IsSmall w → last_of (pos p) w ≡ ok (pos p +ℤ w -ℤ pos 1)
last_of-small p w h s =
    let parts = sum_parts p w h s in
    rw (small_sum p w h s, small_pred (pos p +ℤ w) parts.0 parts.1) refl

-- A last column in range bounds the columns.
span_fits :
    (p bound x : ℕ) (w : ℤ)
    → p < bound
    → pos p +ℤ w -ℤ pos 1 ≡ pos x
    → x < bound
    → p + pos_part w ≤ bound
unfolding ◌+ℤ◌ ◌-ℤ◌
span_fits p bound x w h last lt = ground (arith, last)

range_length-add : (p : ℕ) (w : ℤ) → range_length (pos p) (pos p +ℤ w) ≡ pos_part w
unfolding ◌+ℤ◌
range_length-add p w = ground arith

pub no : ¬ (false ≡ true)
no e = ground (arith, e)

pub all_four :
    (a b c d : Bool)
    → (a && b && (c && d)) ≡ true
    → (a ≡ true) × (b ≡ true) × (c ≡ true) × (d ≡ true)
all_four a b c d h = ground (arith, h)

module _ (b : Bitmap) (wide lines stride : ℕ) (v : IsBitmap b wide lines stride) (color : ℕ) where
  fill_row-Paints :
      (n y x : ℕ) (m : Pixels)
      → y < lines
      → x + n ≤ stride
      → (out : Pixels) × (fill_row b color (pos y) n (pos x) m ≡ ok out)
        × Paints b lines stride color (λ i j. span x n i && j == y) m out
  unfolding fill_row unchecked_draw_point
  fill_row-Paints zero y x m hy hx = (
    m,
    refl,
    Paints-ext b lines stride color (λ i j. false) _ m m (λ i j ix iy. ground arith)
        (nothing-Paints b lines stride color m),
  )
  fill_row-Paints (suc n) y x m hy hx =
      let rest =
        fill_row-Paints n y (x + 1) (store (address b stride x y) color m) hy (omega arith) in
      let one = store-Paints b lines stride color x y m (omega arith) hy in
      (
        rest.0,
        rw (unchecked_pixel_at_mut-address b wide lines stride v x y (omega arith) hy, pos-add x 1)
            rest.1,
        Paints-ext b lines stride color _ _ m rest.0 (λ i j ix iy. ground arith)
            (Paints-trans b lines stride color _ _ m _ rest.0 one rest.2),
      )

  fill_rows-Paints :
      (n p y : ℕ) (w : ℤ) (m : Pixels)
      → p < 2 ^ 62
      → IsSmall w
      → p + pos_part w ≤ stride
      → y + n ≤ lines
      → (out : Pixels) × (fill_rows b color (pos p) w n (pos y) m ≡ ok out)
        × Paints b lines stride color (λ i j. span p (pos_part w) i && span y n j) m out
  unfolding fill_rows
  fill_rows-Paints zero p y w m hp s hx hy = (
    m,
    refl,
    Paints-ext b lines stride color (λ i j. false) _ m m (λ i j ix iy. ground arith)
        (nothing-Paints b lines stride color m),
  )
  fill_rows-Paints (suc n) p y w m hp s hx hy =
      let row = fill_row-Paints (pos_part w) y p m (omega arith) hx in
      let rest = fill_rows-Paints n p (y + 1) w row.0 hp s hx (omega arith) in
      (
        rest.0,
        rw (small_sum p w hp s, range_length-add p w, row.1, pos-add y 1) rest.1,
        Paints-ext b lines stride color _ _ m rest.0 (λ i j ix iy. ground arith)
            (Paints-trans b lines stride color _ _ m row.0 rest.0 row.2 rest.2),
      )

  pub in_x_range-inv :
      (z : ℤ) → is_in_x_range b z ≡ true → (x : ℕ) × (z ≡ pos x) × (x < min wide stride)
  unfolding is_in_x_range
  in_x_range-inv (pos x) h =
      (x, refl, ground (arith, sym (is_in_x_range-pos b wide lines stride v x) ∙ h))
  in_x_range-inv (negsuc x) h = absurd (ground (arith, h))

  pub in_y_range-inv : (z : ℤ) → is_in_y_range b z ≡ true → (y : ℕ) × (z ≡ pos y) × (y < lines)
  unfolding is_in_y_range
  in_y_range-inv (pos y) h =
      (y, refl, ground (arith, sym (is_in_y_range-pos b wide lines stride v y) ∙ h))
  in_y_range-inv (negsuc y) h = absurd (ground (arith, h))

  -- Neither side is so long that an address leaves the range.
  sides_small : (x y : ℕ) → x < min wide stride → y < lines → (stride < 2 ^ 62) × (lines < 2 ^ 62)
  sides_small x y hx hy =
      let wide_enough : stride * 1 ≤ lines * stride = grind arith in
      let high_enough : lines * 1 ≤ lines * stride = grind arith in omega (arith, v.fits)

  pub fill_rect-inside :
      (p q : ℕ) (w h : ℤ) (m : Pixels)
      → IsSmall w
      → IsSmall h
      → p < min wide stride
      → q < lines
      → is_in_x_range b (pos p +ℤ w -ℤ pos 1) ≡ true
      → is_in_y_range b (pos q +ℤ h -ℤ pos 1) ≡ true
      → (out : Pixels) × (fill_rect b color (pos p) (pos q) w h m ≡ ok (done out))
        × Paints b lines stride color (in_rect (pos p) (pos q) w h) m out
  unfolding fill_rect
  fill_rect-inside p q w h m sw sh hp hq right bottom =
      let small = sides_small p q hp hq in
      let hx = in_x_range-inv _ right in
      let hy = in_y_range-inv _ bottom in
      let across : p + pos_part w ≤ min wide stride =
        span_fits p (min wide stride) hx.0 w hp hx.1 hx.2 in
      let down : q + pos_part h ≤ lines = span_fits q lines hy.0 h hq hy.1 hy.2 in
      let rows =
        fill_rows-Paints (pos_part h) p q w m (omega (arith, small)) sw (omega (arith, across))
          down in
      let x_ok = is_in_x_range-pos b wide lines stride v p ∙ lt→ltb p _ hp in
      let y_ok = is_in_y_range-pos b wide lines stride v q ∙ lt→ltb q _ hq in
      (
        rows.0,
        rw
            (
              x_ok,
              y_ok,
              last_of-small p w (omega (arith, small)) sw,
              right,
              last_of-small q h (omega (arith, small)) sh,
              bottom,
              small_sum q h (omega (arith, small)) sh,
              range_length-add q h,
              rows.1,
            )
            refl,
        Paints-ext b lines stride color _ _ m rows.0
            (λ i j ix iy. rw (between-span p i w, between-span q j h) refl) rows.2,
      )

  -- The four ways to be out of range, in the order of the tests.
  pub fill_rect-outside :
      (px py w h : ℤ) (m : Pixels)
      → IsSmall w
      → IsSmall h
      → corners b px py w h ≡ false
      → fill_rect b color px py w h m ≡ ok (out_of_range m)
  unfolding fill_rect
  fill_rect-outside px py w h m sw sh out = elim (Bool-cases (is_in_x_range b px)) [
    | inr no_x ↦ rw no_x refl
    | inl in_x ↦ elim (Bool-cases (is_in_y_range b py)) [
      | inr no_y ↦ rw (in_x, no_y) refl
      | inl in_y ↦
          let x = in_x_range-inv px in_x in
          let y = in_y_range-inv py in_y in
          let small = sides_small x.0 y.0 x.2 y.2 in
          let right : last_of px w ≡ ok (px +ℤ w -ℤ pos 1) =
            rw x.1 (last_of-small x.0 w (omega (arith, small, x.2)) sw) in
          let bottom : last_of py h ≡ ok (py +ℤ h -ℤ pos 1) =
            rw y.1 (last_of-small y.0 h (omega (arith, small, y.2)) sh) in
          elim (Bool-cases (is_in_x_range b (px +ℤ w -ℤ pos 1))) [
            | inr no_right ↦ rw (in_x, in_y, right, no_right) refl
            | inl in_right ↦ elim (Bool-cases (is_in_y_range b (py +ℤ h -ℤ pos 1))) [
              | inr no_bottom ↦ rw (in_x, in_y, right, in_right, bottom, no_bottom) refl
              | inl in_bottom ↦ absurd (no (sym out ∙ (rw (in_x, in_y, in_right, in_bottom) refl)))
            ]
          ]
    ]
  ]

  -- On a bitmap whose lines lie in memory, for sides below 2 ^ 62 in size, fill_rect returns
  -- without a panic: Ok if both corners are in range, and else its error. If they are, the pixels
  -- of the rectangle get the colour; in either case no other pixel and no memory outside the
  -- bitmap changes.
  pub fill_rect-Paints :
      (px py w h : ℤ) (m : Pixels)
      → IsSmall w
      → IsSmall h
      → (out : Pixels) × (fill_rect b color px py w h m
          ≡ ok (if corners b px py w h then done out else out_of_range out))
        × Paints b lines stride color (λ x y. corners b px py w h && in_rect px py w h x y) m out
  fill_rect-Paints px py w h m sw sh = elim (Bool-cases (corners b px py w h)) [
    | inr out ↦ (
      m,
      rw (out, fill_rect-outside px py w h m sw sh out) refl,
      Paints-ext b lines stride color (λ x y. false) _ m m (λ x y ix iy. rw out refl)
          (nothing-Paints b lines stride color m),
    )
    | inl c ↦
        let parts =
          all_four (is_in_x_range b px) (is_in_y_range b py) (is_in_x_range b (px +ℤ w -ℤ pos 1))
            (is_in_y_range b (py +ℤ h -ℤ pos 1)) c in
        let x = in_x_range-inv px parts.0 in
        let y = in_y_range-inv py parts.1 in
        let drawn =
          fill_rect-inside x.0 y.0 w h m sw sh x.2 y.2 (rw x.1 at parts.2) (rw y.1 at parts.3) in
        (
          drawn.0,
          rw (c, x.1, y.1) drawn.1,
          Paints-ext b lines stride color _ _ m drawn.0 (λ i j ix iy. rw (c, x.1, y.1) refl)
              drawn.2,
        )
  ]
