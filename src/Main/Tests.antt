-- ===== src/Main/Tests.antt =====
-- The theorem about the screen of wasabi/src/main.rs, at a screen of 640 by 480 pixels.
use osdev_hikalium.Prelude.{◌≡◌, refl, false, none, [], ◌==◌, arith}
use osdev_hikalium.Prelude.Usize.{ok}
use osdev_hikalium.Graphics.Font.{Screen}
use osdev_hikalium.Graphics.Font.Source.{IsCache}
use osdev_hikalium.Graphics.Pattern.Layers.{Shows}
use osdev_hikalium.Uefi.Vram.{EfiGraphicsOutProtocol, Protocols, VramBufferInfo, vram_bitmap}
use osdev_hikalium.Main.{draw_screen, screen_layers, draw_screen-Shows}

abbrev vga : EfiGraphicsOutProtocol
vga = record {
  mode = record {
    max_mode = 1;
    mode = 0;
    info = record {
      version = 0;
      horizontal_resolution = 640;
      vertical_resolution = 480;
      pixels_per_scan_line = 704;
    };
    size_of_info = 36;
    frame_buffer_base = 0x8000_0000;
    frame_buffer_size = 0x150000;
  };
}

abbrev services : Protocols
services = record {
  locate_protocol = λ guid. (guid.data0 == 0x9042a9de, vga);
  handle_protocol = λ handle guid. (false, record { image_base = 0; image_size = 0 });
}

no_lines-IsCache : IsCache [] none
no_lines-IsCache = refl

draw_screen-Shows_example :
    (vram : VramBufferInfo) × (s : Screen) × (draw_screen [] services (none, λ a. 0) ≡ ok (vram, s))
    × (vram.buf ≡ 0x8000_0000)
    × Shows (vram_bitmap vram) 480 704 (screen_layers [] 640 480 704) (λ a. 0) s.1
draw_screen-Shows_example =
    draw_screen-Shows [] services none (λ a. 0) refl (omega arith) (omega arith) (omega arith)
      (omega arith) (omega arith) (omega arith) (omega arith) no_lines-IsCache
