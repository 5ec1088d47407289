-- ===== src/Graphics/Pattern/Shown.antt =====
-- What `draw_test_pattern` of wasabi/src/graphics.rs shows.
use osdev_hikalium.Prelude.{
  ℕ, ◌-◌, ◌^◌, ◌≤◌, ◌<◌, ◌≡◌, refl, inl, inr, ◌⊎◌, Bool-cases, ◌&&◌, ltb, ltb→lt, List, [], ◌∷◌,
  ◌++◌, All, Option, arith,
}
use osdev_hikalium.Prelude.Int.{pos, negsuc, ◌-ℤ◌, checked_i64-pos, pos-sub}
use osdev_hikalium.Prelude.Usize.{ok, panic}
use osdev_hikalium.Graphics.{Bitmap, Pixels}
use osdev_hikalium.Graphics.Address.{IsBitmap, visible}
use osdev_hikalium.Graphics.Font.{Font, Screen}
use osdev_hikalium.Graphics.Font.Source.{IsCache}
use osdev_hikalium.Graphics.Font.Text.{text_area, draw_str_fg-Paints}
use osdev_hikalium.Graphics.Pattern.{colors, points, digits, letters, left_of, draw_test_pattern}
use osdev_hikalium.Graphics.Pattern.Layers.{Layer, Shows, nothing-Shows, Paints-Shows, Shows-append}
use osdev_hikalium.Graphics.Pattern.Parts.{
  rect_layers, line_layers, Near, draw_rects-Shows, draw_lines-Shows, draw_rects-low,
  draw_rects-narrow,
}

-- The layers of the pattern with its left side at column `left`.
abbrev pub text_layer : List (List ℕ) → ℕ → ℕ → ℕ → ℕ → ℕ → List ℕ → Layer
text_layer source wide lines stride left y text = (
  0x00ff00,
  λ i j. visible wide lines stride i j && text_area source (pos left) (pos y) 0 text i j,
)

abbrev pub pattern_layers : List (List ℕ) → ℕ → ℕ → ℕ → ℕ → List Layer
pattern_layers source wide lines stride left =
    rect_layers left 0 colors
    ++ (line_layers left points points
        ++ (text_layer source wide lines stride left 256 digits
            ∷ text_layer source wide lines stride left 272 letters
            ∷ []))

points-Near : All Near points
points-Near = (
  (omega arith, omega arith),
  ((omega arith, omega arith), ((omega arith, omega arith), ((omega arith, omega arith), tt))),
)

module _ (source : List (List ℕ)) (b : Bitmap) (wide lines stride : ℕ)
    (v : IsBitmap b wide lines stride) where
  left_of-pos : 129 ≤ wide → wide < 2 ^ 30 → left_of b ≡ ok (pos (wide - 129))
  left_of-pos h small =
      let at : wide - 128 - 1 ≡ wide - 129 = omega arith in
      rw
        (
          v.widths,
          pos-sub wide 128 (omega arith),
          checked_i64-pos (wide - 128) (omega arith),
          pos-sub (wide - 128) 1 (omega arith),
          at,
          checked_i64-pos (wide - 129) (omega arith),
        )
        refl

  left_of-negsuc : wide < 129 → (n : ℕ) × (left_of b ≡ ok (negsuc n))
  unfolding ◌-ℤ◌
  left_of-negsuc h = (128 - wide, rw v.widths (ground (arith, h)))

  -- On a bitmap whose lines lie in memory, with 129 up to 2 ^ 30 columns that are all visible and
  -- 256 up to 2 ^ 30 lines, draw_test_pattern returns without a panic and shows, in this order one
  -- over the other, the four colours with their complements as squares, the white lines between
  -- all pairs of corners and the two green texts; no memory outside the bitmap changes.
  pub draw_test_pattern-Shows :
      (cache : Option Font) (m : Pixels)
      → 129 ≤ wide
      → wide ≤ stride
      → wide < 2 ^ 30
      → 256 ≤ lines
      → lines < 2 ^ 30
      → IsCache source cache
      → (s : Screen) × (draw_test_pattern source b (cache, m) ≡ ok s)
        × IsCache source s.0
        × Shows b lines stride (pattern_layers source wide lines stride (wide - 129)) m s.1
  unfolding draw_test_pattern
  draw_test_pattern-Shows cache m hw hs small hl low valid =
      let left = wide - 129 in
      let rects =
        draw_rects-Shows b wide lines stride v left 0 colors m (omega arith) (omega arith)
          (omega arith) low in
      let drawn =
        draw_lines-Shows b wide lines stride v left points points rects.0 (omega arith)
          (omega arith) (omega arith) low points-Near points-Near in
      let one =
        draw_str_fg-Paints source b wide lines stride v 0x00ff00 (pos left) (pos 256) digits cache
          drawn.0 (omega arith) (omega arith) (omega arith, omega arith) (omega arith) valid in
      let two =
        draw_str_fg-Paints source b wide lines stride v 0x00ff00 (pos left) (pos 272) letters
          one.0.0 one.0.1 (omega arith) (omega arith) (omega arith, omega arith) (omega arith)
          one.2 in
      (
        two.0,
        rw (left_of-pos hw small, rects.1, drawn.1, one.1) two.1,
        two.2,
        Shows-append b lines stride _ _ m rects.0 two.0.1 rects.2 (
            Shows-append b lines stride _ _ rects.0 drawn.0 two.0.1 drawn.2 (
              Paints-Shows b lines stride 0x00ff00 _ _ drawn.0 one.0.1 two.0.1 one.3 (
                Paints-Shows b lines stride 0x00ff00 _ _ one.0.1 two.0.1 two.0.1 two.3
                  (nothing-Shows b lines stride two.0.1)))),
      )

  -- On a bitmap whose lines lie in memory, with fewer than 2 ^ 30 columns that are all visible,
  -- draw_test_pattern panics if there are fewer than 129 columns or fewer than 256 lines.
  pub draw_test_pattern-panics :
      (cache : Option Font) (m : Pixels)
      → wide ≤ stride
      → wide < 2 ^ 30
      → (wide < 129) ⊎ (lines < 256)
      → draw_test_pattern source b (cache, m) ≡ panic
  unfolding draw_test_pattern
  draw_test_pattern-panics cache m hs small short = elim (Bool-cases (ltb wide 129)) [
    | inl narrow ↦
        let left = left_of-negsuc (ltb→lt wide 129 narrow) in
        rw
          (
            left.1,
            draw_rects-narrow b wide lines stride v left.0 0x000000
                (0xff0000 ∷ 0x00ff00 ∷ 0x0000ff ∷ []) m,
          )
          refl
    | inr enough ↦
        let low : lines < 256 = ground (arith, short, enough) in
        let wide_enough : 129 ≤ wide = ground (arith, enough) in
        rw
          (
            left_of-pos wide_enough small,
            draw_rects-low b wide lines stride v (wide - 129) 0 colors m (omega arith) (omega arith)
                (omega arith) (omega arith) (omega arith),
          )
          refl
  ]
