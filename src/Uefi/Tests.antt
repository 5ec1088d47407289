-- ===== src/Uefi/Tests.antt =====
-- The theorems about the memory map, the frame buffer and the text writer, at concrete inputs.
use osdev_hikalium.Prelude.{
  ℕ, ◌+◌, ◌≡◌, refl, true, false, ◌&&◌, none, List, [], ◌∷◌, not, ◌==◌, arith,
}
use osdev_hikalium.Prelude.Usize.{ok}
use osdev_hikalium.Prelude.Int.{pos}
use osdev_hikalium.Graphics.Address.{IsBitmap, visible}
use osdev_hikalium.Graphics.Paint.{Paints}
use osdev_hikalium.Graphics.Font.{Screen}
use osdev_hikalium.Graphics.Font.Source.{IsCache}
use osdev_hikalium.Uefi.Vram.{EfiGraphicsOutProtocol, Protocols, VramBufferInfo, vram_bitmap}
use osdev_hikalium.Uefi.Writer.{
  new_writer, write_str, cursor, end_col, end_line, written, write_str-Paints,
}
use osdev_hikalium.Uefi.Types.{EfiMemoryDescriptor, conventional_memory, loaded_code, reserved}
use osdev_hikalium.Uefi.MemoryMap.{MemoryMapHolder, iter, new_holder}
use osdev_hikalium.Uefi.Iterate.{iter-strided}
use osdev_hikalium.Uefi.Boot.{
  Firmware, exit_from_efi_boot_services, exit_from_efi_boot_services-returns,
}

abbrev descriptor : ℕ → EfiMemoryDescriptor
descriptor ofs = record {
  memory_type = conventional_memory;
  physical_start = 0x1000;
  virtual_start = 0;
  number_of_pages = 16 + ofs;
  attribute = 0;
}

abbrev filled : MemoryMapHolder
filled = record {
  memory_map_buffer = descriptor;
  memory_map_size = 144;
  map_key = 7;
  descriptor_size = 48;
  descriptor_version = 1;
}

iter-strided_example : iter 5 filled ≡ ok (descriptor 0 ∷ descriptor 48 ∷ descriptor 96 ∷ [])
iter-strided_example = iter-strided 5 3 filled (omega arith) (omega arith) refl (omega arith)

abbrev regions : List EfiMemoryDescriptor
regions =
    descriptor 0
    ∷ record {
      memory_type = loaded_code;
      physical_start = 0x1_0000_0000;
      virtual_start = 0;
      number_of_pages = 2;
      attribute = 0;
    }
    ∷ record {
      memory_type = reserved;
      physical_start = 0x2_0000_0000;
      virtual_start = 0;
      number_of_pages = 9;
      attribute = 0;
    }
    ∷ []

-- A firmware that refuses the first key.
abbrev firmware : Firmware
firmware = record {
  get_memory_map = λ k map. (true, record filled { map_key = k });
  exit_boot_services = λ k key. not (key == 0);
}

exit_from_efi_boot_services-returns_example :
    (j : ℕ) × (old : MemoryMapHolder) × (after : MemoryMapHolder) × (exit_from_efi_boot_services 2
        firmware 0
        (new_holder descriptor)
      ≡ ok after)
    × (after ≡ (firmware.get_memory_map j old).1)
    × (firmware.exit_boot_services j after.map_key ≡ true)
exit_from_efi_boot_services-returns_example =
    exit_from_efi_boot_services-returns 2 0 1 firmware (new_holder descriptor) (λ j map. refl)
      (omega arith) (omega arith) (λ map. refl)

abbrev vga : EfiGraphicsOutProtocol
vga = record {
  mode = record {
    max_mode = 1;
    mode = 0;
    info = record {
      version = 0;
      horizontal_resolution = 640;
      vertical_resolution = 480;
      pixels_per_scan_line = 704;
    };
    size_of_info = 36;
    frame_buffer_base = 0x8000_0000;
    frame_buffer_size = 0x150000;
  };
}

abbrev services : Protocols
services = record {
  locate_protocol = λ guid. (guid.data0 == 0x9042a9de, vga);
  handle_protocol = λ handle guid. (false, record { image_base = 0; image_size = 0 });
}

abbrev screen : VramBufferInfo
screen = record { buf = 0x8000_0000; width = pos 640; height = pos 480; pixels_per_line = pos 704 }

screen-IsBitmap : IsBitmap (vram_bitmap screen) 640 480 704
screen-IsBitmap = record {
  four_bytes = refl;
  strides = refl;
  widths = refl;
  heights = refl;
  fits = omega arith;
  in_memory = omega arith;
}

-- "a", a newline and "b", in a font without glyphs.
abbrev message : List ℕ
message = 0x61 ∷ 0x0a ∷ 0x62 ∷ []

lines-IsCache : IsCache [] none
lines-IsCache = refl

write_str-Paints_example :
    (s : Screen) × (write_str [] (vram_bitmap screen) message (new_writer, (none, λ a. 0))
      ≡ ok (cursor (end_col 0 message) (end_line 0 message), s))
    × IsCache [] s.0
    × Paints
        (vram_bitmap screen)
        480
        704
        0xffffff
        (λ i j. visible 640 480 704 i j && written [] 0 0 message i j)
        (λ a. 0)
        s.1
write_str-Paints_example =
    write_str-Paints [] (vram_bitmap screen) 640 480 704 screen-IsBitmap message 0 0 none (λ a. 0)
      (omega arith) (omega arith) lines-IsCache
