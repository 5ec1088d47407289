-- ===== src/Graphics/Font/Glyphs.antt =====
-- The pixels that `draw_font_fg` and `draw_str_fg` of wasabi/src/graphics.rs paint.
use osdev_hikalium.Prelude.{
  fun_ext, ltb→lt, ℕ, zero, suc, ◌+◌, ◌^◌, ◌≤◌, ◌<◌, ◌≡◌, refl, ap, inl, inr, Bool-cases, Bool,
  false, ◌&&◌, ◌||◌, ltb, ◌==◌, Option, none, some, List, [], ◌∷◌, get_elem?, length, arith,
}
use osdev_hikalium.Prelude.Int.{ℤ, pos, same_ℤ, leb_ℤ, range_length, ◌+ℤ◌, checked_i64}
use osdev_hikalium.Prelude.Usize.{ok}
use osdev_hikalium.Graphics.{Bitmap, Pixels, drawn_pixels}
use osdev_hikalium.Graphics.Address.{IsBitmap, visible}
use osdev_hikalium.Graphics.Paint.{Paints, nothing-Paints, Paints-trans, Paints-ext}
use osdev_hikalium.Graphics.Point.{point_area, draw_point-Paints}
use osdev_hikalium.Graphics.Rect.{IsSmall}
use osdev_hikalium.Graphics.Font.Source.{IsWide, HasShape}
use osdev_hikalium.Graphics.Font.Rows.{pixel_in}
use osdev_hikalium.Graphics.Font.{Glyph, star, draw_glyph_row, draw_glyph}

abbrev pub is_star : Option ℕ → Bool
is_star none = false
is_star (some c) = c == star

pub small-add :
    (x : ℤ) (n : ℕ) → IsSmall x → n < 2 ^ 61 → checked_i64 (x +ℤ pos n) ≡ ok (x +ℤ pos n)
unfolding ◌+ℤ◌
small-add x n s h = ground arith

-- Column or line i stands at or after z, and the test holds of its distance.
abbrev pub hit : ℤ → ℕ → (ℕ → Bool) → Bool
hit z i f = leb_ℤ z (pos i) && f (range_length z (pos i))

hit-suc :
    (x : ℤ) (n i : ℕ) (f : ℕ → Bool)
    → hit (x +ℤ pos n) i f
      ≡ ((f 0 && same_ℤ (x +ℤ pos n) (pos i)) || hit (x +ℤ pos (n + 1)) i (λ k. f (suc k)))
unfolding ◌+ℤ◌
hit-suc x n i f = ground arith

add-zero : (x : ℤ) → x +ℤ pos 0 ≡ x
unfolding ◌+ℤ◌
add-zero x = ground arith

-- The pixel of a glyph in column k of line l has a star.
abbrev star_at : Glyph → ℕ → ℕ → Bool
star_at glyph l k = is_star (pixel_in (get_elem? glyph l) k)

get_elem?-end {ℓ} : {A : Type ℓ} (xs : List A) (i : ℕ) → length xs ≤ i → get_elem? xs i ≡ none
get_elem?-end [] i h = refl
get_elem?-end (x ∷ xs) zero h = absurd (omega arith)
get_elem?-end (x ∷ xs) (suc i) h = get_elem?-end xs i (omega arith)

row_end : (glyph : Glyph) (l k : ℕ) → IsWide glyph → 8 ≤ k → pixel_in (get_elem? glyph l) k ≡ none
row_end [] l k w h = refl
row_end (row ∷ rows) zero k w h = get_elem?-end row k (omega (arith, w.0))
row_end (row ∷ rows) (suc l) k w h = row_end rows l k w.1 h

shape_star :
    (glyph : Glyph) (pixel : ℕ → ℕ → ℕ) (l k : ℕ)
    → HasShape glyph pixel
    → star_at glyph l k ≡ (ltb k 8 && ltb l 16 && pixel k l == star)
shape_star glyph pixel l k shape = elim (Bool-cases (ltb k 8)) [
  | inr beside ↦ rw (beside, row_end glyph l k shape.wide (ground (arith, beside))) refl
  | inl in_row ↦ elim (Bool-cases (ltb l 16)) [
    | inr below ↦ rw (in_row, below, get_elem?-end glyph l (ground (arith, below, shape.tall))) refl
    | inl in_glyph ↦
        rw (in_row, in_glyph, shape.inside k l (ltb→lt k 8 in_row) (ltb→lt l 16 in_glyph)) refl
  ]
]

-- The character cell with its corner at x and y, 8 pixels wide and 16 high.
abbrev pub in_cell : ℤ → ℤ → (ℕ → ℕ → ℕ) → ℕ → ℕ → Bool
in_cell x y pixel i j = hit y j (λ l. hit x i (λ k. ltb k 8 && ltb l 16 && pixel k l == star))

module _ (b : Bitmap) (wide lines stride : ℕ) (v : IsBitmap b wide lines stride) (color : ℕ) where
  -- The pixels of a row from column dx on.
  abbrev row_area : ℤ → ℤ → ℕ → List ℕ → ℕ → ℕ → Bool
  row_area x y dx [] i j = false
  row_area x y dx (p ∷ row) i j =
      (p == star && point_area b wide lines stride v color (x +ℤ pos dx) y i j)
      || row_area x y (dx + 1) row i j

  draw_glyph_row-Paints :
      (x y : ℤ) (dy dx : ℕ) (row : List ℕ) (m : Pixels)
      → IsSmall x
      → IsSmall y
      → dy < 2 ^ 61
      → dx + length row < 2 ^ 61
      → (out : Pixels) × (draw_glyph_row b color x y dy dx row m ≡ ok out)
        × Paints b lines stride color (row_area x (y +ℤ pos dy) dx row) m out
  unfolding draw_glyph_row
  draw_glyph_row-Paints x y dy dx [] m sx sy hy hx =
      (m, refl, nothing-Paints b lines stride color m)
  draw_glyph_row-Paints x y dy dx (p ∷ row) m sx sy hy hx = elim (Bool-cases (p == star)) [
    | inr other ↦
        let rest = draw_glyph_row-Paints x y dy (dx + 1) row m sx sy hy (omega arith) in
        (
          rest.0,
          rw other rest.1,
          Paints-ext b lines stride color _ _ m rest.0 (λ i j ix iy. rw other refl) rest.2,
        )
    | inl same ↦
        let one = draw_point-Paints b wide lines stride v color (x +ℤ pos dx) (y +ℤ pos dy) m in
        let rest =
          draw_glyph_row-Paints x y dy (dx + 1) row (drawn_pixels one.0) sx sy hy (omega arith) in
        (
          rest.0,
          rw (same, small-add x dx sx (omega arith), small-add y dy sy hy, one.1) rest.1,
          Paints-ext b lines stride color _ _ m rest.0 (λ i j ix iy. rw same refl)
              (Paints-trans b lines stride color _ _ m _ rest.0 one.2 rest.2),
        )
  ]

  -- The pixels of a glyph from row dy on.
  abbrev glyph_area : ℤ → ℤ → ℕ → Glyph → ℕ → ℕ → Bool
  glyph_area x y dy [] i j = false
  glyph_area x y dy (row ∷ rows) i j =
      row_area x (y +ℤ pos dy) 0 row i j || glyph_area x y (dy + 1) rows i j

  pub draw_glyph-Paints :
      (x y : ℤ) (dy : ℕ) (glyph : Glyph) (m : Pixels)
      → IsSmall x
      → IsSmall y
      → dy + length glyph < 2 ^ 61
      → IsWide glyph
      → (out : Pixels) × (draw_glyph b color x y dy glyph m ≡ ok out)
        × Paints b lines stride color (glyph_area x y dy glyph) m out
  unfolding draw_glyph
  draw_glyph-Paints x y dy [] m sx sy hy hs = (m, refl, nothing-Paints b lines stride color m)
  draw_glyph-Paints x y dy (row ∷ rows) m sx sy hy hs =
      let first = draw_glyph_row-Paints x y dy 0 row m sx sy (omega arith) (omega (arith, hs.0)) in
      let rest = draw_glyph-Paints x y (dy + 1) rows first.0 sx sy (omega arith) hs.1 in
      (
        rest.0,
        rw first.1 rest.1,
        Paints-trans b lines stride color _ _ m first.0 rest.0 first.2 rest.2,
      )

  row_area-hit :
      (x y : ℤ) (dx : ℕ) (row : List ℕ) (i j : ℕ)
      → row_area x y dx row i j ≡ (
          visible wide lines stride i j
          && (same_ℤ y (pos j) && hit (x +ℤ pos dx) i (λ k. is_star (get_elem? row k))))
  row_area-hit x y dx [] i j = ground arith
  row_area-hit x y dx (p ∷ row) i j =
      rw (row_area-hit x y (dx + 1) row i j, hit-suc x dx i (λ k. is_star (get_elem? (p ∷ row) k)))
        (row_bools (p == star) (visible wide lines stride i j) (same_ℤ (x +ℤ pos dx) (pos i))
          (same_ℤ y (pos j)) _)
    where
      row_bools :
          (p v x y r : Bool)
          → ((p && (v && (x && y))) || (v && (y && r))) ≡ (v && (y && ((p && x) || r)))
      row_bools p v x y r = ground arith

  glyph_area-hit :
      (x y : ℤ) (dy : ℕ) (glyph : Glyph) (i j : ℕ)
      → glyph_area x y dy glyph i j ≡ (
          visible wide lines stride i j
          && hit (y +ℤ pos dy) j (λ l. hit x i (λ k. star_at glyph l k)))
  glyph_area-hit x y dy [] i j = ground arith
  glyph_area-hit x y dy (row ∷ rows) i j =
      rw
        (
          glyph_area-hit x y (dy + 1) rows i j,
          row_area-hit x (y +ℤ pos dy) 0 row i j,
          add-zero x,
          hit-suc y dy j (λ l. hit x i (λ k. star_at (row ∷ rows) l k)),
        )
        (glyph_bools (visible wide lines stride i j) (same_ℤ (y +ℤ pos dy) (pos j))
          (hit x i (λ k. is_star (get_elem? row k))) _)
    where
      glyph_bools : (v y h r : Bool) → ((v && (y && h)) || (v && r)) ≡ (v && ((h && y) || r))
      glyph_bools v y h r = ground arith

  pub draw_glyph-HasShape :
      (x y : ℤ) (glyph : Glyph) (pixel : ℕ → ℕ → ℕ) (m : Pixels)
      → IsSmall x
      → IsSmall y
      → HasShape glyph pixel
      → (out : Pixels) × (draw_glyph b color x y 0 glyph m ≡ ok out)
        × Paints b lines stride color
            (λ i j. visible wide lines stride i j && in_cell x y pixel i j)
            m
            out
  draw_glyph-HasShape x y glyph pixel m sx sy shape =
      let drawn = draw_glyph-Paints x y 0 glyph m sx sy (omega (arith, shape.tall)) shape.wide in
      (
        drawn.0,
        drawn.1,
        Paints-ext b lines stride color _ _ m drawn.0
            (λ i j ix iy.
              rw (glyph_area-hit x y 0 glyph i j, add-zero y)
                (ap
                  (λ (f : ℕ → ℕ → Bool).
                    visible wide lines stride i j && hit y j (λ l. hit x i (λ k. f l k)))
                  (fun_ext (λ l. fun_ext (λ k. shape_star glyph pixel l k shape)))))
            drawn.2,
      )
