-- ===== src/Uefi/Vram.antt =====
-- The protocols and the frame buffer of wasabi/src/uefi.rs. `none` is an `Err` with its fixed message. What
-- the firmware answers is a parameter: whether the status is `Success`, and what stands at the pointer.
use osdev_hikalium.Prelude.{
  ℕ, ◌+◌, ◌*◌, ◌^◌, ◌<◌, ◌≡◌, refl, Bool, true, false, if◌then◌else◌, Option, none, some, List, [],
  ◌∷◌,
}
use osdev_hikalium.Prelude.Int.{ℤ, pos}
use osdev_hikalium.Prelude.Usize.{word_mod}
use osdev_hikalium.Graphics.{Bitmap}
use osdev_hikalium.Graphics.Address.{IsBitmap}

pub record EfiGuid : Type 0 where
  pub data0 : ℕ
  pub data1 : ℕ
  pub data2 : ℕ
  pub data3 : List ℕ

abbrev pub efi_graphics_output_protocol_guid : EfiGuid
efi_graphics_output_protocol_guid = record {
  data0 = 0x9042a9de;
  data1 = 0x23dc;
  data2 = 0x4a38;
  data3 = 0x96 ∷ 0xfb ∷ 0x7a ∷ 0xde ∷ 0xd0 ∷ 0x80 ∷ 0x51 ∷ 0x6a ∷ [];
}

abbrev pub efi_loaded_image_protocol_guid : EfiGuid
efi_loaded_image_protocol_guid = record {
  data0 = 0x5b1b31a1;
  data1 = 0x9562;
  data2 = 0x11d2;
  data3 = 0x8e ∷ 0x3f ∷ 0x00 ∷ 0xa0 ∷ 0xc9 ∷ 0x69 ∷ 0x72 ∷ 0x3b ∷ [];
}

pub record EfiGraphicsOutputProtocolPixelInfo : Type 0 where
  pub version : ℕ
  pub horizontal_resolution : ℕ
  pub vertical_resolution : ℕ
  pub pixels_per_scan_line : ℕ

pub record EfiGraphicsOutputProtocolMode : Type 0 where
  pub max_mode : ℕ
  pub mode : ℕ
  pub info : EfiGraphicsOutputProtocolPixelInfo
  pub size_of_info : ℕ
  pub frame_buffer_base : ℕ
  pub frame_buffer_size : ℕ

pub record EfiGraphicsOutProtocol : Type 0 where
  pub mode : EfiGraphicsOutputProtocolMode

pub record EfiLoadedImageProtocol : Type 0 where
  pub image_base : ℕ
  pub image_size : ℕ

-- The calls of the boot services that find protocols.
pub record Protocols : Type 0 where
  pub locate_protocol : EfiGuid → Bool × EfiGraphicsOutProtocol
  pub handle_protocol : ℕ → EfiGuid → Bool × EfiLoadedImageProtocol

unfoldable pub locate_graphic_protocol : Protocols → Option EfiGraphicsOutProtocol
locate_graphic_protocol services =
    let answer = services.locate_protocol efi_graphics_output_protocol_guid in
    if answer.0 then some answer.1 else none

unfoldable pub locate_loaded_image_protocal : ℕ → Protocols → Option EfiLoadedImageProtocol
locate_loaded_image_protocal image_handle services =
    let answer = services.handle_protocol image_handle efi_loaded_image_protocol_guid in
    if answer.0 then some answer.1 else none

pub record VramBufferInfo : Type 0 where
  pub buf : ℕ
  pub width : ℤ
  pub height : ℤ
  pub pixels_per_line : ℤ

-- The methods of the trait `Bitmap`.
abbrev pub vram_bitmap : VramBufferInfo → Bitmap
vram_bitmap vram = record {
  bytes_per_pixel = pos 4;
  pixels_per_line = vram.pixels_per_line;
  width = vram.width;
  height = vram.height;
  buf_mut = vram.buf;
}

abbrev pub vram_info : EfiGraphicsOutProtocol → VramBufferInfo
vram_info gp = record {
  buf = gp.mode.frame_buffer_base;
  width = pos gp.mode.info.horizontal_resolution;
  height = pos gp.mode.info.vertical_resolution;
  pixels_per_line = pos gp.mode.info.pixels_per_scan_line;
}

abbrev pub vram_of : Option EfiGraphicsOutProtocol → Option VramBufferInfo
vram_of none = none
vram_of (some gp) = some (vram_info gp)

unfoldable pub init_vram : Protocols → Option VramBufferInfo
init_vram services = vram_of (locate_graphic_protocol services)

module _ (services : Protocols) where
  abbrev pub answer : Bool × EfiGraphicsOutProtocol
  answer = services.locate_protocol efi_graphics_output_protocol_guid

  abbrev pub pixel_info : EfiGraphicsOutputProtocolPixelInfo
  pixel_info = answer.1.mode.info

  -- When the lines of the frame buffer take less than 2 ^ 63 bytes and end within the address
  -- space, init_vram succeeds exactly if the firmware finds the protocol, and what it returns then
  -- is a bitmap at the base of the frame buffer with the resolution and line length of the mode,
  -- whose lines lie in memory.
  pub init_vram-IsBitmap :
      pixel_info.vertical_resolution * pixel_info.pixels_per_scan_line * 4 < 2 ^ 63
      → answer.1.mode.frame_buffer_base
          + pixel_info.vertical_resolution * pixel_info.pixels_per_scan_line * 4
        < word_mod
      → (vram : VramBufferInfo) × (init_vram services ≡ (if answer.0 then some vram else none))
        × (vram.buf ≡ answer.1.mode.frame_buffer_base)
        × IsBitmap
            (vram_bitmap vram)
            pixel_info.horizontal_resolution
            pixel_info.vertical_resolution
            pixel_info.pixels_per_scan_line
  unfolding init_vram locate_graphic_protocol
  init_vram-IsBitmap fits in_memory = (
    vram_info answer.1,
    vram_if answer.1 answer.0,
    refl,
    record {
      four_bytes = refl;
      strides = refl;
      widths = refl;
      heights = refl;
      fits = fits;
      in_memory = in_memory;
    },
  )
    where
      vram_if :
          (gp : EfiGraphicsOutProtocol) (found : Bool)
          → vram_of (if found then some gp else none)
            ≡ (if found then some (vram_info gp) else none)
      vram_if gp true = refl
      vram_if gp false = refl
