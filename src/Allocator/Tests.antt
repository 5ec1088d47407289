-- ===== src/Allocator/Tests.antt =====
-- Runs of the allocator on a small heap, and its theorems at that heap.
use mathlib.Core.Option.{some-injective}
use osdev_hikalium.Prelude.{
  max, ap, ℕ, ◌+◌, ◌-◌, ◌*◌, ◌^◌, ◌≤◌, ◌<◌, ◌≡◌, refl, inl, inr, true, false, none, some, List, [],
  ◌∷◌, ◌==◌, if◌then◌else◌, arith,
}
use osdev_hikalium.Uefi.Types.{EfiMemoryDescriptor, conventional_memory, loaded_code}
use osdev_hikalium.Allocator.Pow2.{
  round_up_to_nearest_pow2, round_up_to_nearest_pow2_least, round_up_to_nearest_pow2_range,
}
use osdev_hikalium.Allocator.Memory.{Memory}
use osdev_hikalium.Allocator.Header.{provide, provide_rounded}
use osdev_hikalium.Allocator.FirstFit.{Layout, alloc_with_options, dealloc, init_with_mmap}
use osdev_hikalium.Allocator.Regions.{Region, region, IsHeap}
use osdev_hikalium.Allocator.Chain.{header, Chain}
use osdev_hikalium.Allocator.Layouts.{IsLayout, Raises}
use osdev_hikalium.Allocator.Request.{IsRequest}
use osdev_hikalium.Allocator.Alloc.{Granted, Allocates, alloc_with_options-Allocates}
use osdev_hikalium.Allocator.Dealloc.{Frees, dealloc-Frees}
use osdev_hikalium.Allocator.Cycle.{Restores, dealloc-Restores}
use osdev_hikalium.Allocator.Init.{Builds, heap_of}
use osdev_hikalium.Allocator.Boot.{init_with_mmap-Builds}

-- The cases of `round_up_to_nearest_pow2_tests`.
powers :
    (round_up_to_nearest_pow2 0 ≡ none)
    × (round_up_to_nearest_pow2 1 ≡ some 1)
    × (round_up_to_nearest_pow2 2 ≡ some 2)
    × (round_up_to_nearest_pow2 3 ≡ some 4)
    × (round_up_to_nearest_pow2 8 ≡ some 8)
    × (round_up_to_nearest_pow2 9 ≡ some 16)
unfolding round_up_to_nearest_pow2
powers = (refl, refl, refl, refl, refl, refl)

abbrev one_region : List Region
one_region = region 0x1000 0x10000 false ∷ []

abbrev memory : Memory
memory a = if a == 0x1000 then some (header none 0x10000 false) else none

-- An area of 1234 bytes at a multiple of 4096.
abbrev layout : Layout
layout = record { size = 1234; align = 4096 }

layout-IsLayout : IsLayout layout 12
layout-IsLayout = record { power = refl; nonzero = omega arith; in_isize = omega arith }

one_region-IsHeap : IsHeap one_region
one_region-IsHeap = (
  record {
    start_aligned = refl;
    size_aligned = refl;
    inhabited = omega arith;
    in_space = omega arith;
  },
  tt,
  tt,
)

memory-Chain : Chain memory (some 0x1000) one_region
memory-Chain = (refl, (none, refl, refl))

alloc_with_options-Allocates_example :
    Allocates layout 12 memory
      (some 0x1000)
      one_region
      (alloc_with_options 2 (some 0x1000) layout memory)
alloc_with_options-Allocates_example =
    alloc_with_options-Allocates layout 12 2 memory (some 0x1000) one_region layout-IsLayout
      one_region-IsHeap memory-Chain (omega arith)

round_up_to_nearest_pow2_least_example :
    (k : ℕ) × (round_up_to_nearest_pow2 1000 ≡ some (2 ^ k))
    × (k < 64)
    × (1000 ≤ 2 ^ k)
    × (2 ^ k < 2 * 1000)
round_up_to_nearest_pow2_least_example =
    round_up_to_nearest_pow2_least 1000 (omega arith) (omega arith)

round_up_to_nearest_pow2_range_example : round_up_to_nearest_pow2 (2 ^ 63 + 1) ≡ none
round_up_to_nearest_pow2_range_example =
    round_up_to_nearest_pow2_range (2 ^ 63 + 1) (inr (omega arith)) (omega arith)

-- The region in use between two free ones, as the request above leaves them.
abbrev used_memory : Memory
used_memory a =
    if a == 0x1000
    then some (header (some 0xffe0) (0xffe0 - 0x1000) false)
    else if a == 0xffe0
    then some (header (some 0x10800) 0x820 true)
    else if a == 0x10800
    then some (header none 0x800 false)
    else none

abbrev used_regions : List Region
used_regions =
    region 0x1000 (0xffe0 - 0x1000) false
    ∷ region 0xffe0 0x820 true
    ∷ region 0x10800 0x800 false
    ∷ []

used_regions-IsHeap : IsHeap used_regions
used_regions-IsHeap = ground arith

used_memory-Chain : Chain used_memory (some 0x1000) used_regions
used_memory-Chain =
    (refl, (some 0xffe0, refl, (refl, (some 0x10800, refl, (refl, (none, refl, refl))))))

dealloc-Frees_example :
    Frees used_memory
      (some 0x1000)
      (region 0x1000 (0xffe0 - 0x1000) false ∷ [])
      (region 0x10800 0x800 false ∷ [])
      0x10000
      0x820
      (dealloc 0x10000 used_memory)
dealloc-Frees_example =
    dealloc-Frees used_memory (some 0x1000) (region 0x1000 (0xffe0 - 0x1000) false ∷ [])
      (region 0x10800 0x800 false ∷ []) 0x10000 0x820 (omega arith) used_regions-IsHeap
      used_memory-Chain

abbrev descriptors : List EfiMemoryDescriptor
descriptors =
    record {
      memory_type = conventional_memory;
      physical_start = 0;
      virtual_start = 0;
      number_of_pages = 160;
      attribute = 15;
    }
    ∷ record {
      memory_type = loaded_code;
      physical_start = 0x100000;
      virtual_start = 0;
      number_of_pages = 16;
      attribute = 15;
    }
    ∷ record {
      memory_type = conventional_memory;
      physical_start = 0x200000;
      virtual_start = 0;
      number_of_pages = 2;
      attribute = 15;
    }
    ∷ []

heap_of-descriptors :
    heap_of descriptors [] ≡ region 0x200000 0x2000 false ∷ region 0x1000 0x9f000 false ∷ []
heap_of-descriptors = refl

init_with_mmap-Builds_example :
    Builds (heap_of descriptors []) (init_with_mmap descriptors none (λ _. none))
init_with_mmap-Builds_example = init_with_mmap-Builds descriptors (λ _. none) (ground arith)

layout-IsRequest : IsRequest 2048 12
layout-IsRequest = omega arith

layout-provides :
    (e : ℕ) (m : Memory) → provide e layout.size layout.align m ≡ provide_rounded e 2048 (2 ^ 12) m
unfolding provide round_up_to_nearest_pow2
layout-provides e m = refl

raised_exact : (i : ℕ) → round_up_to_nearest_pow2 layout.size ≡ some i → 2048 ≡ max i 32
unfolding round_up_to_nearest_pow2
raised_exact i e = ap (λ (n : ℕ). max n 32) (some-injective _ _ e)

abbrev raised : Raises layout 12
raised = record {
  size = 2048;
  exponent = 12;
  request = layout-IsRequest;
  provides = layout-provides;
  enough = omega arith;
  exact = raised_exact;
  tight = inl (omega arith);
  coarser = omega arith;
  finest = omega arith;
}

granted : Granted layout 2048 12 one_region 0x10000 used_regions
granted = record {
  aligned = refl;
  enough = omega arith;
  apart = ((λ used. cc), tt);
  serves = record {
    before = [];
    chosen = region 0x1000 0x10000 false;
    after = [];
    was = refl;
    becomes = refl;
    passed_over = tt;
    holds = refl;
    placed = record { aligned = refl; above = omega arith; below = omega arith };
    multiple = 16;
    aligned = refl;
    highest = omega arith;
  };
}

dealloc-Restores_example :
    Restores layout (some 0x1000) one_region 0x10000 (dealloc 0x10000 used_memory)
dealloc-Restores_example =
    dealloc-Restores layout 12 raised used_memory (some 0x1000) one_region used_regions 0x10000
      granted used_regions-IsHeap used_memory-Chain
