-- ===== src/Uefi/Iterate.antt =====
-- The iterator over the memory map of wasabi/src/uefi.rs visits each descriptor once.
use osdev_hikalium.Prelude.{
  ℕ, zero, suc, ◌+◌, ◌*◌, ◌≤◌, ◌<◌, ◌≡◌, refl, true, false, leb, ltb, none, some, List, [], ◌∷◌,
  arith,
}
use osdev_hikalium.Prelude.Usize.{ok, word_mod}
use osdev_hikalium.Uefi.Types.{EfiMemoryDescriptor}
use osdev_hikalium.Uefi.MemoryMap.{MemoryMapHolder, next, collect, iter}

-- The descriptors from an offset on, one stride apart.
abbrev pub strided : (ℕ → EfiMemoryDescriptor) → ℕ → ℕ → ℕ → List EfiMemoryDescriptor
strided buffer stride ofs zero = []
strided buffer stride ofs (suc n) = buffer ofs ∷ strided buffer stride (ofs + stride) n

next-end : (map : MemoryMapHolder) (ofs : ℕ) → map.memory_map_size ≤ ofs → next map ofs ≡ ok none
unfolding next
next-end map ofs h = ground arith

next-item :
    (map : MemoryMapHolder) (ofs : ℕ)
    → ofs < map.memory_map_size
    → ofs + map.descriptor_size < word_mod
    → next map ofs ≡ ok (some (map.memory_map_buffer ofs, ofs + map.descriptor_size))
unfolding next
next-item map ofs h fits =
    let inside : leb map.memory_map_size ofs ≡ false = ground arith in
    let room : ltb (ofs + map.descriptor_size) word_mod ≡ true = ground arith in
    rw (inside, room) refl

collect-strided :
    (fuel n : ℕ) (map : MemoryMapHolder) (ofs : ℕ)
    → n < fuel
    → 0 < map.descriptor_size
    → map.memory_map_size < word_mod
    → map.memory_map_size ≡ ofs + n * map.descriptor_size
    → collect fuel map ofs ≡ ok (strided map.memory_map_buffer map.descriptor_size ofs n)
unfolding collect
collect-strided zero n map ofs lt pos fits size = absurd (omega arith)
collect-strided (suc fuel) zero map ofs lt pos fits size = rw (next-end map ofs (omega arith)) refl
collect-strided (suc fuel) (suc n) map ofs lt pos fits size =
    rw
      (
        next-item map ofs (omega arith) (omega arith),
        collect-strided fuel n map (ofs + map.descriptor_size) (omega arith) pos fits (omega arith),
      )
      refl

-- For a map of n descriptors of a size above 0, a loop over the iterator that may call it more
-- than n times ends without a panic and sees the n descriptors at the multiples of the descriptor
-- size, in order.
pub iter-strided :
    (fuel n : ℕ) (map : MemoryMapHolder)
    → n < fuel
    → 0 < map.descriptor_size
    → map.memory_map_size ≡ n * map.descriptor_size
    → map.memory_map_size < word_mod
    → iter fuel map ≡ ok (strided map.memory_map_buffer map.descriptor_size 0 n)
iter-strided fuel n map lt pos size fits =
    collect-strided fuel n map 0 lt pos fits (omega (arith, size))
