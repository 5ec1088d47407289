-- ===== src/Uefi/Boot.antt =====
-- What boot does with the memory map: `exit_from_efi_boot_services` of wasabi/src/uefi.rs, and the end of the
-- memory in `init_paging` of wasabi/src/init.rs.
use osdev_hikalium.Prelude.{
  ℕ, zero, suc, ◌+◌, ◌*◌, ◌%◌, ◌≤◌, ◌<◌, ◌≡◌, refl, sym, ◌∙◌, inl, inr, Bool, true, false,
  Bool-cases, ltb, if◌then◌else◌, List, [], ◌∷◌, max, All, arith,
}
use osdev_hikalium.Prelude.Usize.{Outcome, ok, panic, out_of_fuel, ◌>>=◌, checked_add, word_mod}
use osdev_hikalium.Uefi.Types.{
  EfiMemoryType, EfiMemoryDescriptor, conventional_memory, loaded_code, loaded_data, same_type,
}
use osdev_hikalium.Uefi.MemoryMap.{MemoryMapHolder}

-- The answers of the firmware to round number k: whether GetMemoryMap succeeds, the map that it
-- fills in, and whether ExitBootServices takes the key.
pub record Firmware : Type 0 where
  pub get_memory_map : ℕ → MemoryMapHolder → Bool × MemoryMapHolder
  pub exit_boot_services : ℕ → ℕ → Bool

-- `exit_from_efi_boot_services`, with at most `fuel` rounds, from round k on.
unfoldable pub exit_from_efi_boot_services :
    ℕ → Firmware → ℕ → MemoryMapHolder → Outcome MemoryMapHolder
exit_from_efi_boot_services zero firmware k memory_map = out_of_fuel
exit_from_efi_boot_services (suc fuel) firmware k memory_map =
    let answer = firmware.get_memory_map k memory_map in
    let again = exit_from_efi_boot_services fuel firmware (suc k) (answer.1) in
    if answer.0
    then (if firmware.exit_boot_services k answer.1.map_key then ok answer.1 else again)
    else panic

abbrev pub checked_mul : ℕ → ℕ → Outcome ℕ
checked_mul a b = if ltb (a * b) word_mod then ok (a * b) else panic

-- The types that `init_paging` counts as memory.
abbrev pub is_memory : EfiMemoryType → Bool
is_memory conventional_memory = true
is_memory loaded_code = true
is_memory loaded_data = true
is_memory _ = false

-- The loop of `init_paging`.
unfoldable pub raise_end : ℕ → List EfiMemoryDescriptor → Outcome ℕ
raise_end end_of_mem [] = ok end_of_mem
raise_end end_of_mem (e ∷ es) =
    let go : ℕ → Outcome ℕ = λ end. raise_end end es in
    if is_memory e.memory_type
    then (checked_mul e.number_of_pages 4096 >>= λ size.
        (checked_add e.physical_start size >>= λ end. go (max end_of_mem end)))
    else go end_of_mem

unfoldable pub end_of_memory : List EfiMemoryDescriptor → Outcome ℕ
end_of_memory es = raise_end 0x1_0000_0000 es

-- A descriptor whose end is a word.
abbrev pub Ends : EfiMemoryDescriptor → Type 0
Ends e = e.physical_start + e.number_of_pages * 4096 < word_mod

-- The end is at least `least`, no region of memory reaches beyond it, and it is the least such number. It is a
-- multiple of the page size if `least` and the starts are.
pub record IsEnd (least : ℕ) (es : List EfiMemoryDescriptor) (end : ℕ) : Type 0 where
  pub at_least : least ≤ end
  pub covers :
      All
        (λ e. is_memory e.memory_type ≡ true → e.physical_start + e.number_of_pages * 4096 ≤ end)
        es
  pub tight :
      (bound : ℕ)
      → least ≤ bound
      → All
          (λ e.
            is_memory e.memory_type ≡ true → e.physical_start + e.number_of_pages * 4096 ≤ bound)
          es
      → end ≤ bound
  pub multiple : least % 4096 ≡ 0 → All (λ e. e.physical_start % 4096 ≡ 0) es → end % 4096 ≡ 0

raise_end-IsEnd :
    (es : List EfiMemoryDescriptor) (least : ℕ)
    → All Ends es
    → (end : ℕ) × (raise_end least es ≡ ok end) × IsEnd least es end
unfolding raise_end
raise_end-IsEnd [] least fits = (
  least,
  refl,
  record { at_least = omega arith; covers = tt; tight = λ bound h all. h; multiple = λ h all. h },
)
raise_end-IsEnd (e ∷ es) least fits = elim (Bool-cases (is_memory e.memory_type)) [
  | inl counts ↦
      let high = max least (e.physical_start + e.number_of_pages * 4096) in
      let rest = raise_end-IsEnd es high fits.1 in
      let first : ltb (e.number_of_pages * 4096) word_mod ≡ true = ground (arith, fits.0) in
      let second : ltb (e.physical_start + e.number_of_pages * 4096) word_mod ≡ true =
        ground (arith, fits.0) in
      (
        rest.0,
        rw (counts, first, second) rest.1,
        record {
          at_least = omega (arith, rest.2.at_least);
          covers = (λ h. omega (arith, rest.2.at_least), rest.2.covers);
          tight = λ bound h all. rest.2.tight bound (omega (arith, all.0 counts)) all.1;
          multiple = λ h all. rest.2.multiple (omega (arith, h, all.0)) all.1;
        },
      )
  | inr other ↦
      let rest = raise_end-IsEnd es least fits.1 in
      (
        rest.0,
        rw other rest.1,
        record {
          at_least = rest.2.at_least;
          covers = (λ h. absurd (ground (arith, other, h)), rest.2.covers);
          tight = λ bound h all. rest.2.tight bound h all.1;
          multiple = λ h all. rest.2.multiple h all.1;
        },
      )
]

-- When every descriptor ends below 2 ^ 64, the end of memory is computed without a panic, and it
-- is the least number that is at least 4 GiB and not below the end of any conventional, loaded
-- code or loaded data region; it is a multiple of 4096 if all regions start at one.
pub end_of_memory-IsEnd :
    (es : List EfiMemoryDescriptor)
    → All Ends es
    → (end : ℕ) × (end_of_memory es ≡ ok end) × IsEnd 0x1_0000_0000 es end
unfolding end_of_memory
end_of_memory-IsEnd es fits = raise_end-IsEnd es 0x1_0000_0000 fits

no : ¬ (true ≡ false)
no e = ground (arith, e)

-- The pages of the conventional descriptors.
abbrev pub conventional_pages : List EfiMemoryDescriptor → ℕ
conventional_pages [] = 0
conventional_pages (e ∷ es) =
    (if same_type e.memory_type conventional_memory then e.number_of_pages else 0)
    + conventional_pages es

-- When the firmware always gives a map and takes the key of its map in some round within the fuel,
-- exit_from_efi_boot_services returns without a panic, and the map that it leaves is one that the
-- firmware gave in a round in which it also took the key of that map.
pub exit_from_efi_boot_services-returns :
    (fuel k last : ℕ) (firmware : Firmware) (before : MemoryMapHolder)
    → ((j : ℕ) (map : MemoryMapHolder) → (firmware.get_memory_map j map).0 ≡ true)
    → k ≤ last
    → last < k + fuel
    → ((map : MemoryMapHolder)
        → firmware.exit_boot_services last (firmware.get_memory_map last map).1.map_key ≡ true)
    → (j : ℕ) × (old : MemoryMapHolder) × (after : MemoryMapHolder) × (exit_from_efi_boot_services
          fuel firmware k before
        ≡ ok after)
      × (after ≡ (firmware.get_memory_map j old).1)
      × (firmware.exit_boot_services j after.map_key ≡ true)
unfolding exit_from_efi_boot_services
exit_from_efi_boot_services-returns zero k last firmware before gets le lt accepts =
    absurd (omega arith)
exit_from_efi_boot_services-returns (suc fuel) k last firmware before gets le lt accepts =
    let map = (firmware.get_memory_map k before).1 in
    elim (Bool-cases (firmware.exit_boot_services k map.map_key)) [
      | inl taken ↦ (k, before, map, rw (gets k before, taken) refl, refl, taken)
      | inr refused ↦
          let later : ¬ (last ≡ k) = λ e. no (sym (rw e at (accepts before)) ∙ refused) in
          let r =
            exit_from_efi_boot_services-returns fuel (suc k) last firmware map gets
              (omega (arith, later)) (omega arith) accepts in
          (r.0, r.1, r.2, rw (gets k before, refused) r.3, r.4, r.5)
    ]
