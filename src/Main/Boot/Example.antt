-- ===== src/Main/Boot/Example.antt =====
-- The two halves of `efi_main` of wasabi/src/main.rs on a machine: a screen of 640 by 480 pixels, one region of memory, a serial
-- port that is always ready.
use osdev_hikalium.Prelude.{ℕ, ◌+◌, ◌*◌, ◌%◌, ◌^◌, refl, true, [], ◌∷◌, ◌==◌, replicate, arith}
use osdev_hikalium.Uefi.Types.{EfiMemoryDescriptor, conventional_memory}
use osdev_hikalium.Uefi.MemoryMap.{MemoryMapHolder}
use osdev_hikalium.Uefi.Vram.{EfiGraphicsOutProtocol, EfiLoadedImageProtocol}
use osdev_hikalium.X86.Segments.{Segments}
use osdev_hikalium.X86.Paging.{Tables}
use osdev_hikalium.X86.Handler.{info_at}
use osdev_hikalium.Main.Boot.{Platform, Limits, take_over}
use osdev_hikalium.Main.Boot.Success.{CanPrint, HasAddresses, TakesOver, take_over-TakesOver}

abbrev screen : EfiGraphicsOutProtocol
screen = record {
  mode = record {
    max_mode = 1;
    mode = 0;
    info = record {
      version = 0;
      horizontal_resolution = 640;
      vertical_resolution = 480;
      pixels_per_scan_line = 704;
    };
    size_of_info = 36;
    frame_buffer_base = 0x8000_0000;
    frame_buffer_size = 0x150000;
  };
}

abbrev image : EfiLoadedImageProtocol
image = record { image_base = 0x40_0000; image_size = 0x2_0000 }

abbrev one_region : ℕ → EfiMemoryDescriptor
one_region ofs = record {
  memory_type = conventional_memory;
  physical_start = 0x100000;
  virtual_start = 0;
  number_of_pages = 256;
  attribute = 15;
}

abbrev one_descriptor : MemoryMapHolder
one_descriptor = record {
  memory_map_buffer = one_region;
  memory_map_size = 48;
  map_key = 7;
  descriptor_size = 48;
  descriptor_version = 1;
}

abbrev platform : Platform
platform = record {
  image_handle = 0x1234;
  efi_system_table = 0x5000;
  system_table_bytes = replicate 8 0;
  services = record {
    locate_protocol = λ guid. (true, screen);
    handle_protocol = λ handle guid. (true, image);
  };
  firmware = record {
    get_memory_map = λ j map. (true, one_descriptor);
    exit_boot_services = λ j key. key == 7;
  };
  zeros = one_region;
  line_status = λ log. 0x60;
  font_lines = [];
  entries = record {
    unimplemented = 0x1000;
    entrypoint3 = 0x2003;
    entrypoint6 = 0x2006;
    entrypoint8 = 0x2008;
    entrypoint13 = 0x200d;
    entrypoint14 = 0x200e;
    entrypoint32 = 0x2020;
  };
  tss_addr = 0x9000;
  gdt_addr = 0xa000;
  idt_addr = 0xb000;
  boxes = λ i. 0x200000 + i % 2 ^ 24 * 0x1000;
  byte_at = λ a. 0;
  cr2 = 0;
  cr3 = 0x7000;
  interrupted = info_at (λ a. 0) 0;
  main_file = [];
  x86_file = [];
}

abbrev limits : Limits
limits = record { polls = 1; rounds = 1; calls = 2 }

abbrev reset : Segments
reset = record {
  es = 0;
  cs = 0;
  ss = 0;
  ds = 0;
  fs = 0;
  gs = 0;
  tr = 0;
  gdtr = record { limit = 0; base = 0 };
  idtr = record { limit = 0; base = 0 };
}

abbrev no_tables : Tables
no_tables = record { mem = λ a. 0; boxed = 0 }

platform-CanPrint : CanPrint platform limits [] (replicate 8 0)
platform-CanPrint = record {
  drains = λ log. (0, omega arith, refl);
  bytes = refl;
  sizes = tt;
  short = omega arith;
  few = omega arith;
}

platform-HasAddresses : HasAddresses platform 0 0x1_0000_0000 (2 ^ 24)
platform-HasAddresses = record {
  entries = omega arith;
  task = omega arith;
  aligned = λ i. (omega arith, omega arith);
  distinct = λ i j h k e. omega arith;
  enough = omega arith;
}

take_over-TakesOver_example :
    TakesOver platform limits []
      (one_region 0 ∷ [])
      (take_over platform limits [] (one_region 0 ∷ []) reset no_tables)
take_over-TakesOver_example =
    take_over-TakesOver platform limits 0x1_0000_0000 (2 ^ 24) [] (one_region 0 ∷ []) reset
      no_tables platform-CanPrint.drains platform-HasAddresses (omega arith) (omega arith)
      (ground arith) (omega arith, tt)
