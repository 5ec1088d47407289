-- ===== src/Allocator/UnitTests/Example.antt =====
-- A heap of one free region with room for the unit tests, and their theorems there.
use osdev_hikalium.Prelude.{◌+◌, refl, inl, false, none, some, [], ◌∷◌, ◌==◌, if◌then◌else◌, arith}
use osdev_hikalium.Allocator.Memory.{Memory}
use osdev_hikalium.Allocator.FirstFit.{Layout, alloc_with_options}
use osdev_hikalium.Allocator.Regions.{region}
use osdev_hikalium.Allocator.Chain.{header}
use osdev_hikalium.Allocator.Room.{IsReady, Gets, alloc_with_options-Gets}

abbrev wide_memory : Memory
wide_memory a = if a == 0x200000 then some (header none 0x1000000 false) else none

abbrev page_layout : Layout
page_layout = record { size = 4096; align = 4096 }

wide_memory-IsReady_one : IsReady (some 0x200000) 5000 (4096 + 12416) 1 wide_memory
wide_memory-IsReady_one = record {
  regions = region 0x200000 0x1000000 false ∷ [];
  represents = (refl, (none, refl, refl));
  heap = (omega arith, tt, tt);
  room = inl (refl, omega arith);
  short = omega arith;
}

alloc_with_options-Gets_example :
    Gets
      (some 0x200000)
      5000
      4096
      0
      page_layout
      (alloc_with_options 5000 (some 0x200000) page_layout wide_memory)
alloc_with_options-Gets_example =
    alloc_with_options-Gets page_layout 12 5000 4096 0 wide_memory (some 0x200000)
      (record { power = refl; nonzero = omega arith; in_isize = omega arith })
      wide_memory-IsReady_one
