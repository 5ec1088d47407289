-- ===== src/Graphics/Pattern/Layers.antt =====
-- Drawings of several colours on a bitmap of wasabi/src/graphics.rs, one layer over the other.
use osdev_hikalium.Prelude.{
  ℕ, ◌<◌, ◌≡◌, ◌≢◌, refl, ap, ◌∙◌, Bool, if◌then◌else◌, List, [], ◌∷◌, ◌++◌,
}
use osdev_hikalium.Graphics.{Bitmap, Pixels}
use osdev_hikalium.Graphics.Address.{address}
use osdev_hikalium.Graphics.Paint.{Paints}

-- A colour and the pixels that get it.
abbrev pub Layer : Type 0
Layer = ℕ × (ℕ → ℕ → Bool)

-- The colour of a pixel after the layers, from what it was before.
abbrev pub painted : List Layer → ℕ → ℕ → ℕ → ℕ
painted [] x y old = old
painted (l ∷ ls) x y old = painted ls x y (if l.1 x y then l.0 else old)

painted-append :
    (ls ks : List Layer) (x y old : ℕ)
    → painted (ls ++ ks) x y old ≡ painted ks x y (painted ls x y old)
painted-append [] ks x y old = refl
painted-append (l ∷ ls) ks x y old = painted-append ls ks x y (if l.1 x y then l.0 else old)

module _ (b : Bitmap) (lines stride : ℕ) where
  -- From `before` to `after` the layers were painted; memory outside the bitmap is as before.
  pub record Shows (layers : List Layer) (before after : Pixels) : Type 0 where
    pub pixels :
        (x y : ℕ)
        → x < stride
        → y < lines
        → after (address b stride x y) ≡ painted layers x y (before (address b stride x y))
    pub elsewhere :
        (a : ℕ)
        → ((x y : ℕ) → x < stride → y < lines → a ≢ address b stride x y)
        → after a ≡ before a

  pub nothing-Shows : (m : Pixels) → Shows [] m m
  nothing-Shows m = record { pixels = λ x y hx hy. refl; elsewhere = λ a out. refl }

  pub Paints-Shows :
      (color : ℕ) (area : ℕ → ℕ → Bool) (ls : List Layer) (m n o : Pixels)
      → Paints b lines stride color area m n
      → Shows ls n o
      → Shows ((color, area) ∷ ls) m o
  Paints-Shows color area ls m n o p s = record {
    pixels = λ x y hx hy. s.pixels x y hx hy ∙ ap (painted ls x y) (p.pixels x y hx hy);
    elsewhere = λ a out. s.elsewhere a out ∙ p.elsewhere a out;
  }

  pub Shows-append :
      (ls ks : List Layer) (m n o : Pixels) → Shows ls m n → Shows ks n o → Shows (ls ++ ks) m o
  Shows-append ls ks m n o s t = record {
    pixels = λ x y hx hy.
        t.pixels x y hx hy
        ∙ ap (painted ks x y) (s.pixels x y hx hy)
        ∙ (rw (painted-append ls ks x y (m (address b stride x y))) refl);
    elsewhere = λ a out. t.elsewhere a out ∙ s.elsewhere a out;
  }
