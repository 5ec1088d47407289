-- ===== src/Allocator/UnitTests/Overlap/Example.antt =====
-- The test on a heap of one free region of 16 MiB.
use osdev_hikalium.Prelude.{
  ℕ, ◌+◌, ◌≡◌, refl, inl, false, Option, none, some, [], ◌∷◌, ◌==◌, if◌then◌else◌, arith,
}
use osdev_hikalium.Prelude.Usize.{ok}
use osdev_hikalium.Allocator.FirstFit.{Layout}
use osdev_hikalium.Allocator.Regions.{region}
use osdev_hikalium.Allocator.Chain.{header}
use osdev_hikalium.Allocator.Room.{IsReady}
use osdev_hikalium.Allocator.UnitTests.Overlap.{Ram, allocated_objects_have_no_overlap}
use osdev_hikalium.Allocator.UnitTests.Overlap.Passes.{allocated_objects_have_no_overlap-returns}

abbrev ram : Ram
ram = record {
  headers = λ a. if a == 0x200000 then some (header none 0x1000000 false) else none;
  bytes = λ a. none;
}

-- 34 pointers.
abbrev vector : Layout
vector = record { size = 272; align = 8 }

abbrev from_size_align : ℕ → ℕ → Option Layout
from_size_align size align = some (record { size = size; align = align })

ram-IsReady : IsReady (some 0x200000) 200 (6013682 + 680) 69 ram.headers
ram-IsReady = record {
  regions = region 0x200000 0x1000000 false ∷ [];
  represents = (refl, (none, refl, refl));
  heap = (omega arith, tt, tt);
  room = inl (refl, omega arith);
  short = omega arith;
}

allocated_objects_have_no_overlap-returns_example :
    (after : Ram) × (allocated_objects_have_no_overlap 200
        (some 0x200000)
        from_size_align
        vector
        ram
      ≡ ok after)
allocated_objects_have_no_overlap-returns_example =
    allocated_objects_have_no_overlap-returns (some 0x200000) 200 from_size_align vector 3 ram
      (λ size j h. refl) (record { power = refl; nonzero = omega arith; in_isize = omega arith })
      ram-IsReady
