-- ===== src/Init/Tests.antt =====
-- The theorems about wasabi/src/init.rs, at concrete inputs.
use osdev_hikalium.Prelude.{
  ℕ, ◌+◌, ◌*◌, ◌/◌, ◌^◌, ◌<◌, ltb, if◌then◌else◌, bit_or, not, ◌==◌, Option, none, true, ◌%◌, ◌≡◌,
  refl, List, [], ◌∷◌, arith,
}
use osdev_hikalium.Prelude.Usize
use osdev_hikalium.Uefi.Types.{EfiMemoryDescriptor, conventional_memory}
use osdev_hikalium.Uefi.Boot.{IsEnd}
use osdev_hikalium.X86.Paging.{Tables}
use osdev_hikalium.X86.Paging.Create.{AreAligned}
use osdev_hikalium.X86.Paging.Tree.{leaf}
use osdev_hikalium.X86.Paging.Descend.{AreDistinct}
use osdev_hikalium.Uefi.MemoryMap.{MemoryMapHolder}
use osdev_hikalium.Uefi.Boot.{Firmware}
use osdev_hikalium.Allocator.Memory.{Memory}
use osdev_hikalium.Allocator.Regions.{IsHeap}
use osdev_hikalium.Allocator.Chain.{Chain}
use osdev_hikalium.Allocator.Init.{heap_of}
use osdev_hikalium.Init.Runtime.{
  init_basic_runtime, descriptors_of, GivesMaps, init_basic_runtime-Builds,
}
use osdev_hikalium.Init.{init_paging, init_paging-Identity}

abbrev regions : List EfiMemoryDescriptor
regions =
    record {
      memory_type = conventional_memory;
      physical_start = 0x1_0000_0000;
      virtual_start = 0;
      number_of_pages = 3;
      attribute = 0;
    }
    ∷ []

abbrev boxes : ℕ → ℕ
boxes i = 0x200000 + i % 1024 * 0x1000

boxes-AreAligned : AreAligned boxes
boxes-AreAligned i = (omega arith, omega arith)

abbrev tables : Tables
tables = record { mem = λ a. 0; boxed = 0 }

-- Enough boxes for the tables of 4 GiB and more.
abbrev many_boxes : ℕ → ℕ
many_boxes i = 0x200000 + i % 2 ^ 24 * 0x1000

many_boxes-AreAligned : AreAligned many_boxes
many_boxes-AreAligned i = (omega arith, omega arith)

many_boxes-AreDistinct : AreDistinct many_boxes (2 ^ 24)
many_boxes-AreDistinct i j h k e = omega arith

init_paging-Identity_example :
    (end : ℕ) × (u : Tables) × (init_paging many_boxes regions tables ≡ Usize.ok (many_boxes 0, u))
    × IsEnd 0x1_0000_0000 regions end
    × ((addr : ℕ)
        → addr < 2 ^ 48
        → leaf u 3 (many_boxes 0) addr
          ≡ (if ltb addr end then bit_or (addr / 4096 * 4096) 3 else 0))
init_paging-Identity_example =
    init_paging-Identity many_boxes (2 ^ 24) 0x1_0000_3000 regions tables many_boxes-AreAligned
      many_boxes-AreDistinct (omega arith) (omega arith) (omega arith) (omega arith, tt) (refl, tt)

abbrev two_regions : ℕ → EfiMemoryDescriptor
two_regions ofs = record {
  memory_type = conventional_memory;
  physical_start = if ofs == 0 then 0x100000 else 0x300000;
  virtual_start = 0;
  number_of_pages = 16;
  attribute = 0;
}

abbrev two_descriptors : MemoryMapHolder
two_descriptors = record {
  memory_map_buffer = two_regions;
  memory_map_size = 96;
  map_key = 7;
  descriptor_size = 48;
  descriptor_version = 1;
}

-- It takes the key in the second round.
abbrev firmware : Firmware
firmware = record {
  get_memory_map = λ j map. (true, two_descriptors);
  exit_boot_services = λ j key. not (j == 0);
}

firmware-GivesMaps : GivesMaps firmware 5 (λ map. 2)
firmware-GivesMaps = record {
  gives = λ j map. refl;
  counted = λ map. omega arith;
  filled = λ j map. record {
    sized = omega arith;
    whole = refl;
    fits = omega arith;
    valid = ground arith;
  };
}

init_basic_runtime-Builds_example :
    (first : Option ℕ) × (memory : Memory) × (map : MemoryMapHolder) × (j : ℕ)
    × (prior : MemoryMapHolder) × (init_basic_runtime 3 5 firmware two_regions (none, λ _. none)
        ≡ Usize.ok ((first, memory), map))
    × (not (j == 0) ≡ true)
    × Chain memory first (heap_of (descriptors_of map 2) [])
    × IsHeap (heap_of (descriptors_of map 2) [])
    × (map ≡ two_descriptors)
init_basic_runtime-Builds_example =
    init_basic_runtime-Builds 3 5 1 firmware two_regions (λ _. none) (λ map. 2) firmware-GivesMaps
      (omega arith) (λ map. refl)
