-- ===== src/Graphics/Address.antt =====
-- Where the pixels of wasabi/src/graphics.rs stand in memory.
use osdev_hikalium.Prelude.{
  ℕ, ◌+◌, ◌*◌, ◌%◌, ◌^◌, ◌≤◌, ◌<◌, ◌≡◌, refl, ap, inl, inr, Bool-cases, ltb→lt, Bool, true, ◌&&◌,
  ltb, min, arith,
}
use osdev_hikalium.Prelude.Int.{pos, checked_i64-pos, pos-add, pos-mul}
use osdev_hikalium.Prelude.Usize.{ok, word_mod}
use osdev_hikalium.Graphics.{Bitmap, unchecked_pixel_at_mut, is_in_x_range, is_in_y_range}

-- A bitmap of `lines` lines of `stride` pixels of 4 bytes each, `wide` of which are visible, in
-- memory from `buf` on.
pub record IsBitmap (b : Bitmap) (wide lines stride : ℕ) : Type 0 where
  pub four_bytes : b.bytes_per_pixel ≡ pos 4
  pub strides : b.pixels_per_line ≡ pos stride
  pub widths : b.width ≡ pos wide
  pub heights : b.height ≡ pos lines
  pub fits : lines * stride * 4 < 2 ^ 63
  pub in_memory : b.buf_mut + lines * stride * 4 < word_mod

-- The address of a pixel.
abbrev pub address : Bitmap → ℕ → ℕ → ℕ → ℕ
address b stride x y = b.buf_mut + (y * stride + x) * 4

-- A pixel that can be drawn.
abbrev pub visible : ℕ → ℕ → ℕ → ℕ → ℕ → Bool
visible wide lines stride x y = ltb x (min wide stride) && ltb y lines

pixel_index-lt : (lines stride x y : ℕ) → x < stride → y < lines → y * stride + x < lines * stride
pixel_index-lt lines stride x y hx hy = grind arith

lines_below : (stride y y' : ℕ) → y < y' → y * stride + stride ≤ y' * stride
lines_below stride y y' h = grind arith

-- Different pixels stand at different addresses.
pub pixel_index_inj :
    (stride x y x' y' : ℕ)
    → x < stride
    → x' < stride
    → y * stride + x ≡ y' * stride + x'
    → (x ≡ x') × (y ≡ y')
pixel_index_inj stride x y x' y' hx hx' e = elim (Bool-cases (ltb y y')) [
  | inl lt ↦ let below = lines_below stride y y' (ltb→lt y y' lt) in absurd (omega (arith, below))
  | inr ge ↦ elim (Bool-cases (ltb y' y)) [
    | inl lt ↦ let below = lines_below stride y' y (ltb→lt y' y lt) in absurd (omega (arith, below))
    | inr le ↦
        let same : y ≡ y' = ground (arith, ge, le) in
        let line : y * stride ≡ y' * stride = ap (λ (t : ℕ). t * stride) same in
        (omega (arith, line), same)
  ]
]

module _ (b : Bitmap) (wide lines stride : ℕ) (v : IsBitmap b wide lines stride) where
  pub is_in_x_range-pos : (x : ℕ) → is_in_x_range b (pos x) ≡ ltb x (min wide stride)
  unfolding is_in_x_range
  is_in_x_range-pos x = rw (v.widths, v.strides) (ground arith)

  pub is_in_y_range-pos : (y : ℕ) → is_in_y_range b (pos y) ≡ ltb y lines
  unfolding is_in_y_range
  is_in_y_range-pos y = rw v.heights (ground arith)

  pub unchecked_pixel_at_mut-address :
      (x y : ℕ)
      → x < stride
      → y < lines
      → unchecked_pixel_at_mut b (pos x) (pos y) ≡ ok (address b stride x y)
  unfolding unchecked_pixel_at_mut
  unchecked_pixel_at_mut-address x y hx hy =
      let i = y * stride + x in
      let below : i < lines * stride = pixel_index-lt lines stride x y hx hy in
      let small : i * 4 < 2 ^ 63 = omega (arith, v.fits) in
      let wrap : i * 4 % word_mod ≡ i * 4 = omega (arith, small) in
      let room : ltb (b.buf_mut + i * 4) word_mod ≡ true = ground (arith, v.in_memory, below) in
      rw
        (
          v.strides,
          v.four_bytes,
          pos-mul y stride,
          checked_i64-pos (y * stride) (omega (arith, small)),
          pos-add (y * stride) x,
          checked_i64-pos i (omega (arith, small)),
          pos-mul i 4,
          checked_i64-pos (i * 4) small,
          wrap,
          room,
        )
        refl
