-- ===== src/Uefi/Types.antt =====
-- `EfiMemoryType` and `EfiMemoryDescriptor` of wasabi/src/uefi.rs.
use osdev_hikalium.Prelude.{ℕ, Bool, ◌==◌}

pub data EfiMemoryType : Type 0 where
  reserved loaded_code loaded_data boot_service_code boot_service_data : EfiMemoryType
  runtime_services_code runtime_services_data conventional_memory unusable_memory : EfiMemoryType
  acpi_reclaim_memory acpi_memory_nvs memory_mapped_io memory_mapped_io_port_space : EfiMemoryType
  pal_code persistent_memory : EfiMemoryType

-- The discriminants of the `repr(i64)` enumeration.
abbrev pub discriminant : EfiMemoryType → ℕ
discriminant reserved = 0
discriminant loaded_code = 1
discriminant loaded_data = 2
discriminant boot_service_code = 3
discriminant boot_service_data = 4
discriminant runtime_services_code = 5
discriminant runtime_services_data = 6
discriminant conventional_memory = 7
discriminant unusable_memory = 8
discriminant acpi_reclaim_memory = 9
discriminant acpi_memory_nvs = 10
discriminant memory_mapped_io = 11
discriminant memory_mapped_io_port_space = 12
discriminant pal_code = 13
discriminant persistent_memory = 14

-- The derived `PartialEq` compares discriminants.
abbrev pub same_type : EfiMemoryType → EfiMemoryType → Bool
same_type a b = discriminant a == discriminant b

pub record EfiMemoryDescriptor : Type 0 where
  pub memory_type : EfiMemoryType
  pub physical_start : ℕ
  pub virtual_start : ℕ
  pub number_of_pages : ℕ
  pub attribute : ℕ
