-- ===== src/Graphics/Point.antt =====
-- `draw_point` of wasabi/src/graphics.rs on pixels within and outside the bitmap.
use osdev_hikalium.Prelude.{
  ℕ, ◌<◌, ◌≡◌, refl, sym, ◌∙◌, Bool, false, ◌&&◌, ltb, ◌==◌, lt→ltb, min, inl, inr, Bool-cases,
  arith,
}
use osdev_hikalium.Prelude.Int.{ℤ, pos, same_ℤ}
use osdev_hikalium.Prelude.Usize.{ok}
use osdev_hikalium.Graphics.{
  Bitmap, Pixels, Drawn, done, out_of_range, store, drawn_pixels, draw_point, pixel_at_mut,
  is_in_x_range, is_in_y_range,
}
use osdev_hikalium.Graphics.Paint.{Paints, nothing-Paints, store-Paints, Paints-ext}
use osdev_hikalium.Graphics.Rect.{in_x_range-inv, in_y_range-inv}
use osdev_hikalium.Graphics.Address.{
  visible, IsBitmap, address, is_in_x_range-pos, is_in_y_range-pos, unchecked_pixel_at_mut-address,
}

module _ (b : Bitmap) (wide lines stride : ℕ) (v : IsBitmap b wide lines stride) (color : ℕ) where
  pub draw_point-inside :
      (x y : ℕ) (m : Pixels)
      → x < min wide stride
      → y < lines
      → draw_point b color (pos x) (pos y) m ≡ ok (done (store (address b stride x y) color m))
  unfolding draw_point pixel_at_mut
  draw_point-inside x y m hx hy =
      let in_x = is_in_x_range-pos b wide lines stride v x ∙ lt→ltb x _ hx in
      let in_y = is_in_y_range-pos b wide lines stride v y ∙ lt→ltb y _ hy in
      rw (in_x, in_y, unchecked_pixel_at_mut-address b wide lines stride v x y (omega arith) hy)
        refl

  pub draw_point-outside :
      (x y : ℤ) (m : Pixels)
      → (is_in_x_range b x && is_in_y_range b y) ≡ false
      → draw_point b color x y m ≡ ok (out_of_range m)
  unfolding draw_point pixel_at_mut
  draw_point-outside x y m out = rw out refl

  -- The pixel at x and y, if it is one that can be drawn.
  abbrev pub point_area : ℤ → ℤ → ℕ → ℕ → Bool
  point_area x y i j = visible wide lines stride i j && (same_ℤ x (pos i) && same_ℤ y (pos j))

  no_point :
      (x y : ℤ) (i j : ℕ)
      → (is_in_x_range b x && is_in_y_range b y) ≡ false
      → point_area x y i j ≡ false
  no_point x y i j out = elim (Bool-cases (same_ℤ x (pos i) && same_ℤ y (pos j))) [
    | inr other ↦ rw other (ground arith)
    | inl same ↦
        let ex : x ≡ pos i = ground (arith, same) in
        let ey : y ≡ pos j = ground (arith, same) in
        let px = is_in_x_range-pos b wide lines stride v i in
        let py = is_in_y_range-pos b wide lines stride v j in
        let hidden : (ltb i (min wide stride) && ltb j lines) ≡ false =
          rw (ex, ey, px, py) at out in
        rw hidden refl
  ]

  point-visible :
      (x y i j : ℕ)
      → x < min wide stride
      → y < lines
      → (i == x && j == y) ≡ point_area (pos x) (pos y) i j
  point-visible x y i j hx hy = ground arith

  draw_visible :
      (x y : ℕ) (m : Pixels)
      → x < min wide stride
      → y < lines
      → (drawn : Drawn) × (draw_point b color (pos x) (pos y) m ≡ ok drawn)
        × Paints b lines stride color (point_area (pos x) (pos y)) m (drawn_pixels drawn)
  draw_visible x y m hx hy = (
    done (store (address b stride x y) color m),
    draw_point-inside x y m hx hy,
    Paints-ext b lines stride color (λ i j. i == x && j == y) _ m _
        (λ i j hi hj. point-visible x y i j hx hy)
        (store-Paints b lines stride color x y m (omega (arith, hx)) hy),
  )

  -- draw_point clips: it paints the pixel if that can be drawn, and nothing otherwise.
  pub draw_point-Paints :
      (x y : ℤ) (m : Pixels)
      → (drawn : Drawn) × (draw_point b color x y m ≡ ok drawn)
        × Paints b lines stride color (point_area x y) m (drawn_pixels drawn)
  draw_point-Paints x y m = elim (Bool-cases (is_in_x_range b x && is_in_y_range b y)) [
    | inr out ↦ (
      out_of_range m,
      draw_point-outside x y m out,
      Paints-ext b lines stride color (λ i j. false) _ m m (λ i j hi hj. sym (no_point x y i j out))
          (nothing-Paints b lines stride color m),
    )
    | inl inside ↦
        let ix = in_x_range-inv b wide lines stride v color x (ground (arith, inside)) in
        let iy = in_y_range-inv b wide lines stride v color y (ground (arith, inside)) in
        rw (ix.1, iy.1) (draw_visible ix.0 iy.0 m ix.2 iy.2)
  ]
