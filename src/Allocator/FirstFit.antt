-- ===== src/Allocator/FirstFit.antt =====
-- `FirstFitAllocator` of wasabi/src/allocator.rs. Its one field, `first_header`, is an argument and
-- a result of the methods that change it.
use osdev_hikalium.Prelude.{
  ℕ, zero, suc, ◌+◌, ◌-◌, ◌*◌, false, not, Option, none, some, List, [], ◌∷◌, ltb, leb, ◌==◌,
  if◌then◌else◌,
}
use osdev_hikalium.Prelude.Usize.{fault, panic, out_of_fuel, word_mod, saturating_sub}
use osdev_hikalium.Uefi.Types.{EfiMemoryDescriptor, conventional_memory, same_type}
use osdev_hikalium.Allocator.Memory.{
  header_size, Cmd, pure, lift, ◌>>=◌, ◌>>◌, load, store, new_from_addr,
}
use osdev_hikalium.Allocator.Header.{provide}

-- `core::alloc::Layout`.
pub record Layout : Type 0 where
  pub size : ℕ
  pub align : ℕ

-- The loop of `alloc_with_options` from one link on. `none` as a result is the null pointer.
unfoldable pub walk : Layout → ℕ → Option ℕ → Cmd (Option ℕ)
walk layout zero header = λ m. out_of_fuel
walk layout (suc fuel) none = pure none
walk layout (suc fuel) (some e) =
    provide e layout.size layout.align
    >>= elim [ some p ↦ pure (some p) | none ↦ load e >>= λ h. walk layout fuel h.next_header ]

unfoldable pub alloc_with_options : ℕ → Option ℕ → Layout → Cmd (Option ℕ)
unfolding walk
alloc_with_options fuel first_header layout = walk layout fuel first_header

-- `Header::from_allocated_region`: the header just below the area.
unfoldable pub from_allocated_region : ℕ → Cmd ℕ
from_allocated_region ptr = if leb header_size ptr then pure (ptr - header_size) else lift fault

unfoldable pub dealloc : ℕ → Cmd (Unit {0})
unfolding from_allocated_region
dealloc ptr = do
  region ← from_allocated_region ptr
  h ← load region
  store region (record h { is_allocated = false })

-- The result is the new `first_header`.
unfoldable pub add_free : ℕ → ℕ → Option ℕ → Cmd (Option ℕ)
unfolding new_from_addr
add_free start_addr size first_header = if leb size 4096 then pure first_header else do
  header ← new_from_addr start_addr
  h ← load header
  store header (record h { next_header = none; is_allocated = false; size = size })
  h ← load header
  store header (record h { next_header = first_header })
  pure (some header)

unfoldable pub add_free_from_descriptor : EfiMemoryDescriptor → Option ℕ → Cmd (Option ℕ)
add_free_from_descriptor desc first_header =
    let size = desc.number_of_pages * 4096 in
    if not (ltb size word_mod)
    then lift panic
    else if desc.physical_start == 0
    then add_free (desc.physical_start + 4096) (saturating_sub size 4096) first_header
    else add_free desc.physical_start size first_header

unfoldable pub init_with_mmap : List EfiMemoryDescriptor → Option ℕ → Cmd (Option ℕ)
init_with_mmap [] first_header = pure first_header
init_with_mmap (e ∷ es) first_header =
    (if not (same_type e.memory_type conventional_memory)
      then pure first_header
      else add_free_from_descriptor e first_header)
    >>= init_with_mmap es
