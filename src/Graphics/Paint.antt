-- ===== src/Graphics/Paint.antt =====
-- What a drawing of wasabi/src/graphics.rs leaves in memory.
use osdev_hikalium.Prelude.{
  ℕ, ◌<◌, ◌≡◌, ◌≢◌, refl, ◌∙◌, inl, inr, Bool-cases, Bool, true, false, ◌&&◌, ◌||◌, ◌==◌, ==→≡,
  ==→≢, if◌then◌else◌, arith,
}
use osdev_hikalium.Graphics.{Bitmap, Pixels, store}
use osdev_hikalium.Graphics.Address.{address, pixel_index_inj}

module _ (b : Bitmap) (lines stride : ℕ) where
  -- From `before` to `after` the pixels of the area have got the colour; the others, and all memory
  -- outside the bitmap, are as before.
  pub record Paints (color : ℕ) (area : ℕ → ℕ → Bool) (before after : Pixels) : Type 0 where
    pub pixels :
        (x y : ℕ)
        → x < stride
        → y < lines
        → after (address b stride x y) ≡ (if area x y then color else before (address b stride x y))
    pub elsewhere :
        (a : ℕ)
        → ((x y : ℕ) → x < stride → y < lines → a ≢ address b stride x y)
        → after a ≡ before a

  pub nothing-Paints : (color : ℕ) (m : Pixels) → Paints color (λ x y. false) m m
  nothing-Paints color m = record { pixels = λ x y hx hy. refl; elsewhere = λ a out. refl }

  pub store-Paints :
      (color px py : ℕ) (m : Pixels)
      → px < stride
      → py < lines
      → Paints color (λ x y. x == px && y == py) m (store (address b stride px py) color m)
  store-Paints color px py m hx hy = record {
    pixels = λ x y ix iy. elim (Bool-cases (address b stride px py == address b stride x y)) [
      | inl e ↦
          let same = ==→≡ _ _ e in
          let at = pixel_index_inj stride px py x y hx ix (omega (arith, same)) in
          let here : (x == px && y == py) ≡ true = ground (arith, at) in rw (e, here) refl
      | inr e ↦
          let other : ¬ ((x == px && y == py) ≡ true) =
            λ h. ==→≢ _ _ e (both-address px py x y h) in
          rw (e, Bool-not_true (x == px && y == py) other) refl
    ];
    elsewhere = λ a out. ground (arith, out px py hx hy);
  }
    where
      both-address :
          (px py x y : ℕ)
          → (x == px && y == py) ≡ true
          → address b stride px py ≡ address b stride x y
      both-address px py x y h =
          let ex : px ≡ x = ground (arith, h) in
          let ey : py ≡ y = ground (arith, h) in rw (ex, ey) refl

      Bool-not_true : (t : Bool) → ¬ (t ≡ true) → t ≡ false
      Bool-not_true true h = absurd (h refl)
      Bool-not_true false h = refl

  pub Paints-trans :
      (color : ℕ) (area other : ℕ → ℕ → Bool) (m n o : Pixels)
      → Paints color area m n
      → Paints color other n o
      → Paints color (λ x y. area x y || other x y) m o
  Paints-trans color area other m n o p q = record {
    pixels = λ x y hx hy. ground (arith, p.pixels x y hx hy, q.pixels x y hx hy);
    elsewhere = λ a out. q.elsewhere a out ∙ p.elsewhere a out;
  }

  pub Paints-ext :
      (color : ℕ) (area other : ℕ → ℕ → Bool) (m n : Pixels)
      → ((x y : ℕ) → x < stride → y < lines → area x y ≡ other x y)
      → Paints color area m n
      → Paints color other m n
  Paints-ext color area other m n same p = record {
    pixels = λ x y hx hy. p.pixels x y hx hy ∙ (rw (same x y hx hy) refl);
    elsewhere = p.elsewhere;
  }
