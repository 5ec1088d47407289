-- ===== src/Main.antt =====
-- The screen in `efi_main` of wasabi/src/main.rs: the frame buffer is made black and gets the test pattern.
use osdev_hikalium.Prelude.{
  ℕ, zero, suc, ◌+◌, ◌-◌, ◌*◌, ◌^◌, ◌≤◌, ◌<◌, ◌≡◌, refl, ap, sym, ◌∙◌, min, Bool, true, false, ◌&&◌,
  ltb, leb, lt→ltb, if◌then◌else◌, Option, none, some, List, [], ◌∷◌, arith,
}
use osdev_hikalium.Prelude.Int.{ℤ, pos, ◌+ℤ◌, ◌-ℤ◌, pos-add, pos-sub}
use osdev_hikalium.Prelude.Usize.{Outcome, ok, panic, ◌>>=◌, word_mod}
use osdev_hikalium.Graphics.{Bitmap, Pixels, fill_rect}
use osdev_hikalium.Graphics.Address.{IsBitmap, is_in_x_range-pos, is_in_y_range-pos}
use osdev_hikalium.Graphics.Paint.{Paints}
use osdev_hikalium.Graphics.Rect.{in_rect, fill_rect-inside}
use osdev_hikalium.Graphics.Font.{Font, Screen}
use osdev_hikalium.Graphics.Font.Source.{IsCache}
use osdev_hikalium.Graphics.Pattern.{expect_drawn, draw_test_pattern}
use osdev_hikalium.Graphics.Pattern.Layers.{Layer, Shows, Paints-Shows}
use osdev_hikalium.Graphics.Pattern.Shown.{pattern_layers, draw_test_pattern-Shows}
use osdev_hikalium.Uefi.Vram.{
  EfiGraphicsOutProtocol, EfiGraphicsOutputProtocolPixelInfo, Protocols, VramBufferInfo, answer,
  pixel_info, vram_bitmap, init_vram, init_vram-IsBitmap, vram_info,
}
pub mod Boot
mod Tests

-- `expect`.
abbrev pub expect_vram : Option VramBufferInfo → Outcome VramBufferInfo
expect_vram none = panic
expect_vram (some vram) = ok vram

-- From `init_vram` to `draw_test_pattern`.
unfoldable pub draw_screen : List (List ℕ) → Protocols → Screen → Outcome (VramBufferInfo × Screen)
draw_screen source services (cache, m) = expect_vram (init_vram services) >>= λ vram.
    ((fill_rect (vram_bitmap vram) 0x000000 (pos 0) (pos 0) vram.width vram.height m
        >>= expect_drawn)
      >>= λ m. (draw_test_pattern source (vram_bitmap vram) (cache, m) >>= λ s. ok (vram, s)))

-- A black screen below the pattern.
abbrev pub screen_layers : List (List ℕ) → ℕ → ℕ → ℕ → List Layer
screen_layers source wide lines stride =
    (0x000000, in_rect (pos 0) (pos 0) (pos wide) (pos lines))
    ∷ pattern_layers source wide lines stride (wide - 129)

last_pixel : (n : ℕ) → 0 < n → pos 0 +ℤ pos n -ℤ pos 1 ≡ pos (n - 1)
unfolding ◌+ℤ◌ ◌-ℤ◌
last_pixel n h = ground arith

-- The whole screen is one rectangle.
fill_screen :
    (b : Bitmap) (wide lines stride : ℕ) (w h : ℤ) (m : Pixels)
    → IsBitmap b wide lines stride
    → w ≡ pos wide
    → h ≡ pos lines
    → 0 < wide
    → wide ≤ stride
    → wide < 2 ^ 30
    → 0 < lines
    → lines < 2 ^ 30
    → (out : Pixels) × ((fill_rect b 0x000000 (pos 0) (pos 0) w h m >>= expect_drawn) ≡ ok out)
      × Paints b lines stride 0x000000 (in_rect (pos 0) (pos 0) (pos wide) (pos lines)) m out
fill_screen b wide lines stride w h m v ew el some_wide hs small some_lines low =
    let black =
      fill_rect-inside b wide lines stride v 0x000000 0 0 (pos wide) (pos lines) m
        (omega (arith, small), omega arith) (omega (arith, low), omega arith) (omega arith)
        (omega arith)
        (rw (last_pixel wide some_wide)
          (is_in_x_range-pos b wide lines stride v (wide - 1) ∙ lt→ltb _ _ (omega arith)))
        (rw (last_pixel lines some_lines)
          (is_in_y_range-pos b wide lines stride v (lines - 1) ∙ lt→ltb _ _ (omega arith))) in
    (black.0, rw (ew, el, black.1) refl, black.2)

drawn_screen :
    (source : List (List ℕ)) (services : Protocols) (cache : Option Font) (m : Pixels)
    (vram : VramBufferInfo) (wide lines stride : ℕ)
    → init_vram services ≡ some vram
    → vram.width ≡ pos wide
    → vram.height ≡ pos lines
    → IsBitmap (vram_bitmap vram) wide lines stride
    → 129 ≤ wide
    → wide ≤ stride
    → wide < 2 ^ 30
    → 256 ≤ lines
    → lines < 2 ^ 30
    → IsCache source cache
    → (s : Screen) × (draw_screen source services (cache, m) ≡ ok (vram, s))
      × IsCache source s.0
      × Shows (vram_bitmap vram) lines stride (screen_layers source wide lines stride) m s.1
unfolding draw_screen
drawn_screen source services cache m vram wide lines stride found ew el v hw hs small hl low valid =
    let b = vram_bitmap vram in
    let black =
      fill_screen b wide lines stride vram.width vram.height m v ew el (omega arith) hs small
        (omega arith) low in
    let shown =
      draw_test_pattern-Shows source b wide lines stride v cache black.0 hw hs small hl low valid in
    (
      shown.0,
      rw (found, black.1, shown.1) refl,
      shown.2,
      Paints-Shows b lines stride 0x000000 _ _ m black.0 shown.0.1 black.2 shown.3,
    )

-- When the firmware finds the graphics protocol, with 129 up to 2 ^ 30 columns that fit in a line,
-- 256 up to 2 ^ 30 lines, and a frame buffer of less than 2 ^ 63 bytes within the address space,
-- the part of efi_main that draws does not panic: the frame buffer shows the test pattern over a
-- screen that is black from the first to the last column and line, and no memory outside it
-- changes.
pub draw_screen-Shows :
    (source : List (List ℕ)) (services : Protocols) (cache : Option Font) (m : Pixels)
    → let info = pixel_info services in
      (answer services).0 ≡ true
      → 129 ≤ info.horizontal_resolution
      → info.horizontal_resolution ≤ info.pixels_per_scan_line
      → info.horizontal_resolution < 2 ^ 30
      → 256 ≤ info.vertical_resolution
      → info.vertical_resolution < 2 ^ 30
      → info.vertical_resolution * info.pixels_per_scan_line * 4 < 2 ^ 63
      → (answer services).1.mode.frame_buffer_base
          + info.vertical_resolution * info.pixels_per_scan_line * 4
        < word_mod
      → IsCache source cache
      → (vram : VramBufferInfo) × (s : Screen) × (draw_screen source services (cache, m)
          ≡ ok (vram, s))
        × (vram.buf ≡ (answer services).1.mode.frame_buffer_base)
        × Shows
            (vram_bitmap vram)
            info.vertical_resolution
            info.pixels_per_scan_line
            (screen_layers source info.horizontal_resolution info.vertical_resolution
              info.pixels_per_scan_line)
            m
            s.1
draw_screen-Shows source services cache m there hw hs small hl low fits in_memory valid =
    let info = pixel_info services in
    let r = init_vram-IsBitmap services fits in_memory in
    let d =
      drawn_screen source services cache m r.0 info.horizontal_resolution info.vertical_resolution
        info.pixels_per_scan_line (rw there at r.1) r.3.widths r.3.heights r.3 hw hs small hl low
        valid in
    (r.0, d.0, d.1, r.2, d.3)
