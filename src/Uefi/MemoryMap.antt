-- ===== src/Uefi/MemoryMap.antt =====
-- `MemoryMapHolder` and its iterator in wasabi/src/uefi.rs. The buffer is what a reader finds at an
-- offset, since the firmware fills it.
use osdev_hikalium.Prelude.{ℕ, zero, suc, leb, if◌then◌else◌, Option, none, some, List, [], ◌∷◌}
use osdev_hikalium.Prelude.Usize.{Outcome, ok, out_of_fuel, ◌>>=◌, checked_add}
use osdev_hikalium.Uefi.Types.{EfiMemoryDescriptor}

abbrev pub memory_map_buffer_size : ℕ
memory_map_buffer_size = 0x8000

pub record MemoryMapHolder : Type 0 where
  pub memory_map_buffer : ℕ → EfiMemoryDescriptor
  pub memory_map_size : ℕ
  pub map_key : ℕ
  pub descriptor_size : ℕ
  pub descriptor_version : ℕ

-- `MemoryMapHolder::new`, with what a reader finds in a buffer of zeros.
unfoldable pub new_holder : (ℕ → EfiMemoryDescriptor) → MemoryMapHolder
new_holder zeros = record {
  memory_map_buffer = zeros;
  memory_map_size = memory_map_buffer_size;
  map_key = 0;
  descriptor_size = 0;
  descriptor_version = 0;
}

-- `MemoryMapIterator::next`: the descriptor and the next offset.
unfoldable pub next : MemoryMapHolder → ℕ → Outcome (Option (EfiMemoryDescriptor × ℕ))
next map ofs =
    if leb map.memory_map_size ofs
    then ok none
    else (checked_add ofs map.descriptor_size >>= λ after.
        ok (some (map.memory_map_buffer ofs, after)))

-- What a `for` loop over `iter()` sees, with at most `fuel` calls of `next`.
unfoldable pub collect : ℕ → MemoryMapHolder → ℕ → Outcome (List EfiMemoryDescriptor)
collect zero map ofs = out_of_fuel
collect (suc fuel) map ofs =
    let rest : ℕ → Outcome (List EfiMemoryDescriptor) = λ after. collect fuel map after in
    next map ofs >>= λ item. elim item [
      | none ↦ ok []
      | some found ↦ (rest found.1 >>= λ others. ok (found.0 ∷ others))
    ]

abbrev pub iter : ℕ → MemoryMapHolder → Outcome (List EfiMemoryDescriptor)
iter fuel map = collect fuel map 0
