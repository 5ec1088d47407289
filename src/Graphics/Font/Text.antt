-- ===== src/Graphics/Font/Text.antt =====
-- The pixels that `draw_font_fg` and `draw_str_fg` of wasabi/src/graphics.rs paint.
use osdev_hikalium.Prelude.{
  ℕ, ◌+◌, ◌*◌, ◌^◌, ◌<◌, ◌≡◌, refl, inl, inr, Bool-cases, Bool, false, ◌&&◌, ◌||◌, ltb, ltb→lt,
  Option, none, some, List, [], ◌∷◌, length, arith,
}
use osdev_hikalium.Prelude.Int.{ℤ, pos, pos_part, neg_part, ◌+ℤ◌, checked_i64-pos, pos-mul}
use osdev_hikalium.Prelude.Usize.{ok}
use osdev_hikalium.Graphics.{Bitmap, Pixels}
use osdev_hikalium.Graphics.Address.{IsBitmap, visible}
use osdev_hikalium.Graphics.Paint.{Paints, nothing-Paints, Paints-trans, Paints-ext}
use osdev_hikalium.Graphics.Rect.{IsSmall}
use osdev_hikalium.Graphics.Font.{
  Font, Screen, cached_font, draw_font_fg, draw_str_from, draw_str_fg,
}
use osdev_hikalium.Graphics.Font.Source.{IsCache, lookup_font-HasShape, lookup_font-missing}
use osdev_hikalium.Graphics.Font.Rows.{source_pixel}
use osdev_hikalium.Graphics.Font.Glyphs.{in_cell, small-add, draw_glyph-HasShape}

cached_font-IsCache : (source : List (List ℕ)) → IsCache source (some (cached_font source none))
unfolding cached_font
cached_font-IsCache source = refl

-- The character that starts at x and y; only characters up to 255 have pixels.
abbrev pub char_area : List (List ℕ) → ℤ → ℤ → ℕ → ℕ → ℕ → Bool
char_area source x y c i j = ltb c 256 && in_cell x y (source_pixel source c) i j

-- Character number n of the text starts 8 * n pixels to the right.
abbrev pub text_area : List (List ℕ) → ℤ → ℤ → ℕ → List ℕ → ℕ → ℕ → Bool
text_area source x y n [] i j = false
text_area source x y n (c ∷ cs) i j =
    char_area source (x +ℤ pos (n * 8)) y c i j || text_area source x y (n + 1) cs i j

shift-IsSmall :
    (x : ℤ) (n : ℕ) → pos_part x < 2 ^ 61 → neg_part x < 2 ^ 62 → n < 2 ^ 60 → IsSmall (x +ℤ pos n)
unfolding ◌+ℤ◌
shift-IsSmall x n right left h = ground arith

module _ (source : List (List ℕ)) (b : Bitmap) (wide lines stride : ℕ)
    (v : IsBitmap b wide lines stride) (color : ℕ) where
  pub draw_font_fg-Paints :
      (x y : ℤ) (c : ℕ) (cache : Option Font) (m : Pixels)
      → IsSmall x
      → IsSmall y
      → IsCache source cache
      → (s : Screen) × (draw_font_fg source b x y color c (cache, m) ≡ ok s)
        × IsCache source s.0
        × Paints b lines stride color
            (λ i j. visible wide lines stride i j && char_area source x y c i j)
            m
            s.1
  unfolding draw_font_fg
  draw_font_fg-Paints x y c cache m sx sy valid = elim (Bool-cases (ltb c 256)) [
    | inl low ↦
        let found = lookup_font-HasShape source c cache valid (ltb→lt c 256 low) in
        let drawn =
          draw_glyph-HasShape b wide lines stride v color x y found.0 (source_pixel source c) m sx
            sy found.2 in
        (
          (some (cached_font source none), drawn.0),
          rw (found.1, drawn.1) refl,
          cached_font-IsCache source,
          Paints-ext b lines stride color _ _ m drawn.0 (λ i j ix iy. rw low refl) drawn.2,
        )
    | inr high ↦
        let missing = lookup_font-missing source c cache high in
        (
          (cache, m),
          rw missing refl,
          valid,
          Paints-ext b lines stride color (λ i j. false) _ m m (λ i j ix iy. rw high (ground arith))
              (nothing-Paints b lines stride color m),
        )
  ]

  draw_str_from-Paints :
      (x y : ℤ) (n : ℕ) (text : List ℕ) (cache : Option Font) (m : Pixels)
      → pos_part x < 2 ^ 61
      → neg_part x < 2 ^ 62
      → IsSmall y
      → n + length text < 2 ^ 57
      → IsCache source cache
      → (s : Screen) × (draw_str_from source b x y color n text (cache, m) ≡ ok s)
        × IsCache source s.0
        × Paints b lines stride color
            (λ i j. visible wide lines stride i j && text_area source x y n text i j)
            m
            s.1
  unfolding draw_str_from
  draw_str_from-Paints x y n [] cache m right left sy h valid = (
    (cache, m),
    refl,
    valid,
    Paints-ext b lines stride color (λ i j. false) _ m m (λ i j ix iy. ground arith)
        (nothing-Paints b lines stride color m),
  )
  draw_str_from-Paints x y n (c ∷ cs) cache m right left sy h valid =
      let start = shift-IsSmall x (n * 8) right left (omega arith) in
      let one = draw_font_fg-Paints (x +ℤ pos (n * 8)) y c cache m start sy valid in
      let rest =
        draw_str_from-Paints x y (n + 1) cs one.0.0 one.0.1 right left sy (omega arith) one.2 in
      (
        rest.0,
        rw
            (
              pos-mul n 8,
              checked_i64-pos (n * 8) (omega arith),
              small-add x (n * 8) (omega (arith, right), left) (omega arith),
              one.1,
            )
            rest.1,
        rest.2,
        Paints-ext b lines stride color _ _ m rest.0.1 (λ i j ix iy. ground arith)
            (Paints-trans b lines stride color _ _ m one.0.1 rest.0.1 one.3 rest.3),
      )

  -- On a bitmap whose lines lie in memory, with a position far inside the range of i64, a text of
  -- fewer than 2 ^ 57 characters and a cache that is empty or built from the font, draw_str_fg
  -- returns without a panic, the cache is again empty or built from the font, and exactly the
  -- visible pixels get the colour that are a star of a character up to 255 in its cell, each cell
  -- 8 pixels right of the one before; no other pixel and no memory outside the bitmap changes.
  pub draw_str_fg-Paints :
      (x y : ℤ) (text : List ℕ) (cache : Option Font) (m : Pixels)
      → pos_part x < 2 ^ 61
      → neg_part x < 2 ^ 62
      → IsSmall y
      → length text < 2 ^ 57
      → IsCache source cache
      → (s : Screen) × (draw_str_fg source b x y color text (cache, m) ≡ ok s)
        × IsCache source s.0
        × Paints b lines stride color
            (λ i j. visible wide lines stride i j && text_area source x y 0 text i j)
            m
            s.1
  unfolding draw_str_fg
  draw_str_fg-Paints x y text cache m right left sy h valid =
      draw_str_from-Paints x y 0 text cache m right left sy (omega arith) valid
