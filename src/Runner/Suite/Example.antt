-- ===== src/Runner/Suite/Example.antt =====
-- The test build on a machine with one region of 64 MiB.
use osdev_hikalium.Prelude.{ℕ, true, Option, none, some, ◌==◌, if◌then◌else◌}
use osdev_hikalium.Uefi.Types.{EfiMemoryDescriptor, conventional_memory}
use osdev_hikalium.Uefi.MemoryMap.{MemoryMapHolder}
use osdev_hikalium.Uefi.Boot.{Firmware}
use osdev_hikalium.Allocator.FirstFit.{Layout}

abbrev one_region : ℕ → EfiMemoryDescriptor
one_region ofs = record {
  memory_type = conventional_memory;
  physical_start = 0x100000;
  virtual_start = 0;
  number_of_pages = 16384;
  attribute = 15;
}

abbrev one_descriptor : MemoryMapHolder
one_descriptor = record {
  memory_map_buffer = one_region;
  memory_map_size = 48;
  map_key = 7;
  descriptor_size = 48;
  descriptor_version = 1;
}

abbrev firmware : Firmware
firmware = record {
  get_memory_map = λ j map. (true, one_descriptor);
  exit_boot_services = λ j key. key == 7;
}

abbrev from_size_align : ℕ → ℕ → Option Layout
from_size_align size align = some (record { size = size; align = align })

-- A vector that grows to 1024 bytes at once.
abbrev requested : ℕ → Option Layout
requested i = if i == 0 then none else some (record { size = 1024; align = 1 })

-- 34 pointers.
abbrev vector : Layout
vector = record { size = 272; align = 8 }
