-- ===== src/Uefi/Writer.antt =====
-- `VramTextWriter` of wasabi/src/uefi.rs. A character is its code point; the lines of the font are a
-- parameter.
use osdev_hikalium.Prelude.{
  ℕ, ◌+◌, ◌*◌, ◌^◌, ◌<◌, ◌≡◌, refl, inl, inr, Bool-cases, Bool, false, ◌&&◌, ◌||◌, ◌==◌,
  if◌then◌else◌, Option, List, [], ◌∷◌, length, arith,
}
use osdev_hikalium.Prelude.Int.{ℤ, pos, ◌+ℤ◌, checked_i64, checked_i64-pos, pos-add}
use osdev_hikalium.Prelude.Usize.{Outcome, ok, ◌>>=◌}
use osdev_hikalium.Graphics.{Bitmap, Pixels}
use osdev_hikalium.Graphics.Address.{IsBitmap, visible}
use osdev_hikalium.Graphics.Paint.{Paints, nothing-Paints, Paints-trans, Paints-ext}
use osdev_hikalium.Graphics.Font.{Font, Screen, draw_font_fg}
use osdev_hikalium.Graphics.Font.Source.{IsCache}
use osdev_hikalium.Graphics.Font.Text.{char_area, draw_font_fg-Paints}

abbrev newline : ℕ
newline = 0x0a

-- The writer without the bitmap.
pub record VramTextWriter : Type 0 where
  pub cursor_x : ℤ
  pub cursor_y : ℤ

-- `VramTextWriter::new`.
abbrev pub new_writer : VramTextWriter
new_writer = record { cursor_x = pos 0; cursor_y = pos 0 }

module _ (source : List (List ℕ)) (b : Bitmap) where
  -- One character of `write_str`.
  unfoldable pub write_char : ℕ → VramTextWriter × Screen → Outcome (VramTextWriter × Screen)
  write_char c (w, s) =
      if c == newline
      then (checked_i64 (w.cursor_y +ℤ pos 16) >>= λ y.
          ok (record { cursor_x = pos 0; cursor_y = y }, s))
      else (draw_font_fg source b w.cursor_x w.cursor_y 0xffffff c s >>= λ s.
          (checked_i64 (w.cursor_x +ℤ pos 8) >>= λ x.
          ok (record { cursor_x = x; cursor_y = w.cursor_y }, s)))

  unfoldable pub write_str : List ℕ → VramTextWriter × Screen → Outcome (VramTextWriter × Screen)
  write_str [] state = ok state
  write_str (c ∷ cs) state = write_char c state >>= write_str cs

-- The writer before character `col` of line `line`.
abbrev pub cursor : ℕ → ℕ → VramTextWriter
cursor col line = record { cursor_x = pos (col * 8); cursor_y = pos (line * 16) }

-- Where a text ends that starts at a column or a line.
abbrev pub end_col : ℕ → List ℕ → ℕ
end_col col [] = col
end_col col (c ∷ cs) = end_col (if c == newline then 0 else col + 1) cs

abbrev pub end_line : ℕ → List ℕ → ℕ
end_line line [] = line
end_line line (c ∷ cs) = end_line (if c == newline then line + 1 else line) cs

-- The pixels of a text that starts there: a newline has none.
abbrev pub written : List (List ℕ) → ℕ → ℕ → List ℕ → ℕ → ℕ → Bool
written source col line [] i j = false
written source col line (c ∷ cs) i j =
    if c == newline
    then written source 0 (line + 1) cs i j
    else char_area source (pos (col * 8)) (pos (line * 16)) c i j
      || written source (col + 1) line cs i j

module _ (source : List (List ℕ)) (b : Bitmap) (wide lines stride : ℕ)
    (v : IsBitmap b wide lines stride) where
  -- On a bitmap whose lines lie in memory, with the cursor at a character cell and fewer than 2 ^
  -- 57 columns and lines to come, the write_str of the text writer returns without a panic, leaves
  -- the cursor at the cell after the text, where a newline starts the next line, and paints in
  -- white exactly the visible pixels that are a star of a character up to 255 in its cell; no
  -- other pixel and no memory outside the bitmap changes.
  pub write_str-Paints :
      (text : List ℕ) (col line : ℕ) (cache : Option Font) (m : Pixels)
      → col + length text < 2 ^ 57
      → line + length text < 2 ^ 57
      → IsCache source cache
      → (s : Screen) × (write_str source b text (cursor col line, (cache, m))
          ≡ ok (cursor (end_col col text) (end_line line text), s))
        × IsCache source s.0
        × Paints b lines stride 0xffffff
            (λ i j. visible wide lines stride i j && written source col line text i j)
            m
            s.1
  unfolding write_str write_char
  write_str-Paints [] col line cache m hc hl valid = (
    (cache, m),
    refl,
    valid,
    Paints-ext b lines stride 0xffffff (λ i j. false) _ m m (λ i j ix iy. ground arith)
        (nothing-Paints b lines stride 0xffffff m),
  )
  write_str-Paints (c ∷ cs) col line cache m hc hl valid = elim (Bool-cases (c == newline)) [
    | inl down ↦
        let rest = write_str-Paints cs 0 (line + 1) cache m (omega arith) (omega arith) valid in
        let next : line * 16 + 16 ≡ (line + 1) * 16 = omega arith in
        (
          rest.0,
          rw (down, pos-add (line * 16) 16, checked_i64-pos (line * 16 + 16) (omega arith), next)
              rest.1,
          rest.2,
          Paints-ext b lines stride 0xffffff _ _ m rest.0.1 (λ i j ix iy. rw down refl) rest.3,
        )
    | inr char ↦
        let one =
          draw_font_fg-Paints source b wide lines stride v 0xffffff (pos (col * 8))
            (pos (line * 16)) c cache m (omega arith, omega arith) (omega arith, omega arith)
            valid in
        let rest =
          write_str-Paints cs (col + 1) line one.0.0 one.0.1 (omega arith) (omega arith) one.2 in
        let next : col * 8 + 8 ≡ (col + 1) * 8 = omega arith in
        (
          rest.0,
          rw (char, one.1, pos-add (col * 8) 8, checked_i64-pos (col * 8 + 8) (omega arith), next)
              rest.1,
          rest.2,
          Paints-ext b lines stride 0xffffff _ _ m rest.0.1 (λ i j ix iy. rw char (ground arith))
              (Paints-trans b lines stride 0xffffff _ _ m one.0.1 rest.0.1 one.3 rest.3),
        )
  ]
