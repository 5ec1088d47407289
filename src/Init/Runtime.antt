-- ===== src/Init/Runtime.antt =====
-- `init_basic_runtime` of wasabi/src/init.rs: the exit from the boot services, then the heap.
use osdev_hikalium.Prelude.{ℕ, ◌*◌, ◌<◌, ◌≡◌, refl, true, Option, none, List, [], arith}
use osdev_hikalium.Prelude.Usize.{Outcome, ok, ◌>>=◌, word_mod}
use osdev_hikalium.Uefi.Types.{EfiMemoryDescriptor}
use osdev_hikalium.Uefi.MemoryMap.{MemoryMapHolder, iter, new_holder}
use osdev_hikalium.Uefi.Iterate.{strided, iter-strided}
use osdev_hikalium.Uefi.Boot.{
  Firmware, exit_from_efi_boot_services, exit_from_efi_boot_services-returns,
}
use osdev_hikalium.Allocator.Memory.{Memory}
use osdev_hikalium.Allocator.FirstFit.{init_with_mmap}
use osdev_hikalium.Allocator.Regions.{IsHeap}
use osdev_hikalium.Allocator.Chain.{Chain}
use osdev_hikalium.Allocator.Init.{heap_of, IsMemoryMap}
use osdev_hikalium.Allocator.Boot.{init_with_mmap-Builds}

-- The first header and the headers in memory.
abbrev pub Heap : Type 0
Heap = Option ℕ × Memory

-- At most `rounds` rounds to leave the boot services, and `calls` calls of the iterator.
unfoldable pub init_basic_runtime :
    ℕ → ℕ → Firmware → (ℕ → EfiMemoryDescriptor) → Heap → Outcome (Heap × MemoryMapHolder)
init_basic_runtime rounds calls firmware zeros heap =
    exit_from_efi_boot_services rounds firmware 0 (new_holder zeros) >>= λ map.
    (iter calls map >>= λ es. (init_with_mmap es heap.0 heap.1 >>= λ heap. ok (heap, map)))

-- The descriptors of a map.
abbrev pub descriptors_of : MemoryMapHolder → ℕ → List EfiMemoryDescriptor
descriptors_of map n = strided map.memory_map_buffer map.descriptor_size 0 n

-- A map of n descriptors of whole pages that do not overlap.
pub record IsFilled (map : MemoryMapHolder) (n : ℕ) : Type 0 where
  pub sized : 0 < map.descriptor_size
  pub whole : map.memory_map_size ≡ n * map.descriptor_size
  pub fits : map.memory_map_size < word_mod
  pub valid : IsMemoryMap (descriptors_of map n)

-- The firmware always gives such a map, of `count` descriptors, which are fewer than `calls`.
pub record GivesMaps (firmware : Firmware) (calls : ℕ) (count : MemoryMapHolder → ℕ) : Type 0 where
  pub gives : (j : ℕ) (map : MemoryMapHolder) → (firmware.get_memory_map j map).0 ≡ true
  pub counted : (map : MemoryMapHolder) → count map < calls
  pub filled :
      (j : ℕ) (map : MemoryMapHolder)
      → IsFilled (firmware.get_memory_map j map).1 (count (firmware.get_memory_map j map).1)

-- When the firmware always gives a map of whole pages that do not overlap, with fewer descriptors
-- than the iterator may be called, and takes the key of its map in some round within the fuel,
-- init_basic_runtime returns without a panic or a fault: the map that it returns is one whose key
-- the firmware took, and the links in memory represent a heap that satisfies the invariant, with
-- the free regions of that map.
pub init_basic_runtime-Builds :
    (rounds calls last : ℕ) (firmware : Firmware) (zeros : ℕ → EfiMemoryDescriptor) (m : Memory)
    (count : MemoryMapHolder → ℕ)
    → GivesMaps firmware calls count
    → last < rounds
    → ((map : MemoryMapHolder)
        → firmware.exit_boot_services last (firmware.get_memory_map last map).1.map_key ≡ true)
    → (first : Option ℕ) × (memory : Memory) × (map : MemoryMapHolder) × (j : ℕ)
      × (prior : MemoryMapHolder) × (init_basic_runtime rounds calls firmware zeros (none, m)
          ≡ ok ((first, memory), map))
      × (firmware.exit_boot_services j map.map_key ≡ true)
      × Chain memory first (heap_of (descriptors_of map (count map)) [])
      × IsHeap (heap_of (descriptors_of map (count map)) [])
      × (map ≡ (firmware.get_memory_map j prior).1)
unfolding init_basic_runtime
init_basic_runtime-Builds rounds calls last firmware zeros m count g lt accepts =
    let left =
      exit_from_efi_boot_services-returns rounds 0 last firmware (new_holder zeros) g.gives
        (omega arith) (omega arith) accepts in
    let map : MemoryMapHolder = left.2 in
    let full : IsFilled map (count map) = rw left.4 (g.filled left.0 left.1) in
    let seen = iter-strided calls (count map) map (g.counted map) full.sized full.whole full.fits in
    let built = init_with_mmap-Builds (descriptors_of map (count map)) m full.valid in
    (
      built.first,
      built.memory,
      map,
      left.0,
      left.1,
      rw (left.3, seen, built.returns) refl,
      left.5,
      built.represents,
      built.heap,
      left.4,
    )
