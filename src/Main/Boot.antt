-- ===== src/Main/Boot.antt =====
-- `efi_main` of wasabi/src/main.rs in two halves: up to the tables of the firmware, and from `init_exceptions`
-- on, where the heap has to serve boxes.
pub mod Printed
pub mod Success
mod Example
use osdev_hikalium.Prelude.{
  ℕ, suc, ◌*◌, ◌/◌, if◌then◌else◌, Option, none, some, List, [], ◌∷◌, ◌++◌,
}
use osdev_hikalium.Prelude.Usize.{Outcome, ok, panic, ◌>>=◌, checked_add}
use osdev_hikalium.Print.Format.{
  Text, codes, decimal, alternate_hex, alternate_hex_018, pointer, alternate_pointer,
}
use osdev_hikalium.Print.Log.{info, warn, error, line_pieces, log_pieces, global_print, hexdump}
use osdev_hikalium.Serial.{Access}
use osdev_hikalium.Graphics.Font.{Screen}
use osdev_hikalium.Uefi.Types
use osdev_hikalium.Uefi.Types.{EfiMemoryType, EfiMemoryDescriptor, conventional_memory, same_type}
use osdev_hikalium.Uefi.MemoryMap.{iter}
use osdev_hikalium.Uefi.Boot.{Firmware, checked_mul}
use osdev_hikalium.Uefi.Vram.{EfiLoadedImageProtocol, Protocols, locate_loaded_image_protocal}
use osdev_hikalium.X86.Idt.{EntryPoints, idt_entries, idtr_parameters}
use osdev_hikalium.X86.Gdt.{kernel_cs, tss64_sel}
use osdev_hikalium.X86.Segments.{Segments, init_exceptions}
use osdev_hikalium.X86.Handler.{InterrupInfo, Message, inthandler}
use osdev_hikalium.X86.Paging.{Tables, next_level}
use osdev_hikalium.X86.Show.{format_table, message_text, message_line}
use osdev_hikalium.Init.{init_paging}
use osdev_hikalium.Init.Runtime.{Heap, init_basic_runtime}
use osdev_hikalium.Runner.{exit_qemu, success, fail}
use osdev_hikalium.Main.{draw_screen}

-- What the machine, the firmware, the compiler and the linker give: among it the bytes of the system
-- table, the state at the breakpoint as `inthandler` gets it, cr3 when it is read, and what `file!()` is in
-- main.rs and in x86.rs.
pub record Platform : Type 0 where
  pub image_handle : ℕ
  pub efi_system_table : ℕ
  pub system_table_bytes : List ℕ
  pub services : Protocols
  pub firmware : Firmware
  pub zeros : ℕ → EfiMemoryDescriptor
  pub line_status : List Access → ℕ
  pub font_lines : List (List ℕ)
  pub entries : EntryPoints
  pub tss_addr : ℕ
  pub gdt_addr : ℕ
  pub idt_addr : ℕ
  pub boxes : ℕ → ℕ
  pub byte_at : ℕ → ℕ
  pub cr2 : ℕ
  pub cr3 : ℕ
  pub interrupted : InterrupInfo
  pub main_file : Text
  pub x86_file : Text

-- At most so many polls of the line status in a row, rounds to leave the boot services, and calls of the
-- iterator.
pub record Limits : Type 0 where
  pub polls : ℕ
  pub rounds : ℕ
  pub calls : ℕ

-- What the first half of efi_main leaves: the screen, the heap, and the descriptors of the memory map.
pub record Started : Type 0 where
  pub screen : Screen
  pub heap : Heap
  pub memory_map : List EfiMemoryDescriptor

-- What the second half leaves: the registers, the tables, and what cr3 gets.
pub record TakenOver : Type 0 where
  pub segments : Segments
  pub tables : Tables
  pub root : ℕ

-- The derived `Debug` of the memory types and of a descriptor.
abbrev pub type_name : EfiMemoryType → Text
type_name Types.reserved = codes "RESERVED"
type_name Types.loaded_code = codes "LOADED_CODE"
type_name Types.loaded_data = codes "LOADED_DATA"
type_name Types.boot_service_code = codes "BOOT_SERVICE_CODE"
type_name Types.boot_service_data = codes "BOOT_SERVICE_DATA"
type_name Types.runtime_services_code = codes "RUNTIME_SERVICES_CODE"
type_name Types.runtime_services_data = codes "RUNTIME_SERVICES_DATA"
type_name Types.conventional_memory = codes "CONVENTIONAL_MEMORY"
type_name Types.unusable_memory = codes "UNUSABLE_MEMORY"
type_name Types.acpi_reclaim_memory = codes "ACPI_RECLAIM_MEMORY"
type_name Types.acpi_memory_nvs = codes "ACPI_MEMORY_NVS"
type_name Types.memory_mapped_io = codes "MEMORY_MAPPED_IO"
type_name Types.memory_mapped_io_port_space = codes "MEMORY_MAPPED_IO_PORT_SPACE"
type_name Types.pal_code = codes "PAL_CODE"
type_name Types.persistent_memory = codes "PERSISTENT_MEMORY"

unfoldable pub format_descriptor : EfiMemoryDescriptor → Text
format_descriptor e =
    codes "EfiMemoryDescriptor { memory_type: "
    ++ type_name e.memory_type
    ++ codes ", physical_start: "
    ++ decimal e.physical_start
    ++ codes ", virtual_start: "
    ++ decimal e.virtual_start
    ++ codes ", number_of_pages: "
    ++ decimal e.number_of_pages
    ++ codes ", attribute: "
    ++ decimal e.attribute
    ++ codes " }"

-- `{t:?}` of an optional table.
unfoldable pub format_optional : ℕ → Tables → Option ℕ → Text
format_optional level t none = codes "None"
format_optional level t (some table) = codes "Some(" ++ format_table level t table ++ codes ")"

-- `t.and_then(|t| t.next_level(0))`.
abbrev pub next_of : Tables → Option ℕ → Option ℕ
next_of t none = none
next_of t (some table) = next_level t table 0

module _ (p : Platform) (n : Limits) where
  -- Calls of the printing macros one after the other.
  unfoldable pub print_all : List Access → List (List Text) → Outcome (List Access)
  print_all log [] = ok log
  print_all log (pieces ∷ prints) = do
    log ← global_print p.line_status n.polls log pieces
    print_all log prints

  -- Up to `expect`, and from there to `hexdump`.
  abbrev pub banner : List (List Text)
  banner =
      line_pieces (codes "Booting WasabiOS ... \n")
      ∷ line_pieces (codes "image_handle: " ++ alternate_hex_018 p.image_handle ++ codes "\n")
      ∷ line_pieces
          (codes "efi_system_table: " ++ alternate_pointer p.efi_system_table ++ codes "\n")
      ∷ []

  abbrev pub image_lines : EfiLoadedImageProtocol → List (List Text)
  image_lines image =
      line_pieces (codes "image_base: " ++ alternate_hex_018 image.image_base)
      ∷ line_pieces (codes "image_size: " ++ alternate_hex_018 image.image_size)
      ∷ log_pieces info p.main_file 63 (codes "info")
      ∷ log_pieces warn p.main_file 64 (codes "warn")
      ∷ log_pieces error p.main_file 65 (codes "error")
      ∷ []

  abbrev pub expect_image : Option EfiLoadedImageProtocol → Outcome EfiLoadedImageProtocol
  expect_image none = panic
  expect_image (some image) = ok image

  unfoldable pub greet : List Access → Outcome (List Access)
  greet log = do
    log ← print_all log banner
    image ← expect_image (locate_loaded_image_protocal p.image_handle p.services)
    log ← print_all log (image_lines image)
    hexdump p.line_status n.polls log p.system_table_bytes

  -- The loop over the map, with the sum of the pages.
  unfoldable pub list_memory :
      List Access → ℕ → List EfiMemoryDescriptor → Outcome (ℕ × List Access)
  list_memory log total [] = ok (total, log)
  list_memory log total (e ∷ es) =
      let go : ℕ → List Access → Outcome (ℕ × List Access) =
        λ total log. list_memory log total es in
      if same_type e.memory_type conventional_memory
      then (checked_add total e.number_of_pages >>= λ total.
          (global_print p.line_status n.polls log (line_pieces (format_descriptor e)) >>= λ log.
          go total log))
      else go total log

  abbrev pub total_lines : ℕ → ℕ → List (List Text)
  total_lines pages bytes =
      line_pieces (
        codes "Total: "
        ++ decimal pages
        ++ codes " pages = "
        ++ decimal (bytes / 1024 / 1024)
        ++ codes " Mib")
      ∷ line_pieces (codes "Hello, Non-UEFI world !")
      ∷ []

  -- The tables that cr3 names, down to the page table of address 0.
  abbrev pub table_lines : Tables → List (List Text)
  table_lines t =
      let pml4 : Option ℕ = some p.cr3 in
      let pdpt = next_of t pml4 in
      let pd = next_of t pdpt in
      let pt = next_of t pd in
      line_pieces (codes "cr3 = " ++ alternate_pointer p.cr3)
      ∷ line_pieces (format_optional 4 t pml4)
      ∷ line_pieces (format_optional 3 t pdpt)
      ∷ line_pieces (format_optional 2 t pd)
      ∷ line_pieces (format_optional 1 t pt)
      ∷ []

  abbrev pub message_lines : List Message → List (List Text)
  message_lines [] = []
  message_lines (m ∷ ms) =
      log_pieces error p.x86_file (message_line m) (message_text m) ∷ message_lines ms

  -- The breakpoint: the entry code calls `inthandler` and goes on when it returns.
  unfoldable pub trigger_debug_interrupt : List Access → Outcome (List Access)
  trigger_debug_interrupt log =
      let handled = inthandler p.byte_at p.cr2 p.interrupted 3 in
      print_all log (message_lines handled.0) >>= λ log. (handled.1 >>= λ done. ok log)

  abbrev pub own_tables_lines : List (List Text)
  own_tables_lines =
      log_pieces info p.main_file 119 (codes "Now we are using our own page tables!")
      ∷ log_pieces info p.main_file 121 (codes "Reading from memory address 0...")
      ∷ log_pieces info p.main_file 126 (codes "value_at_zero = " ++ decimal (p.byte_at 0))
      ∷ []

  -- The first half, up to the tables of the firmware. It needs no box.
  unfoldable pub bring_up : List Access → Screen → Heap → Tables → Outcome (Started × List Access)
  bring_up log screen heap tables = greet log >>= λ log.
      (draw_screen p.font_lines p.services screen >>= λ drawn.
      (init_basic_runtime n.rounds n.calls p.firmware p.zeros heap >>= λ started.
      (iter n.calls started.1 >>= λ es.
      (list_memory log 0 es >>= λ listed.
      (checked_mul listed.0 4096 >>= λ bytes.
      (print_all listed.1 (total_lines listed.0 bytes) >>= λ log.
      (print_all log (table_lines tables) >>= λ log.
      ok (record { screen = drawn.1; heap = started.0; memory_map = es }, log))))))))

  -- What init_exceptions prints, in the order of the calls: `TaskStateSegment64::new`,
  -- `GdtWrapper::load`, `Idt::new`.
  abbrev pub exception_lines : List (List Text)
  exception_lines =
      log_pieces info p.x86_file 832 (codes "TSS64 created @ " ++ alternate_hex p.tss_addr)
      ∷ log_pieces info p.x86_file 917 (codes "Loading GDT @ " ++ alternate_hex_018 p.gdt_addr)
      ∷ log_pieces info p.x86_file 923
          (codes "Loading TSS ( selector = " ++ alternate_hex tss64_sel ++ codes " )")
      ∷ log_pieces info p.x86_file 774 (
          codes "Loading IDT: IdtrParameters { limit: "
          ++ decimal (idtr_parameters (idt_entries p.entries kernel_cs) p.idt_addr).limit
          ++ codes ", base: "
          ++ pointer p.idt_addr
          ++ codes " }")
      ∷ []

  -- The second half, from init_exceptions on, for the case that the heap serves every box that it asks
  -- for: the boxes are the addresses of the platform. With the result comes the write with which
  -- `exit_qemu` ends the program.
  unfoldable pub take_over :
      List Access
      → List EfiMemoryDescriptor
      → Segments
      → Tables
      → Outcome (TakenOver × List Access × (ℕ × ℕ))
  take_over log es segments tables =
      let set_up = init_exceptions p.entries p.tss_addr p.gdt_addr p.idt_addr segments in
      print_all log exception_lines >>= λ log.
      (print_all log (log_pieces info p.main_file 111 (codes "Exception initialized!") ∷ [])
        >>= λ log.
            (trigger_debug_interrupt log >>= λ log.
            (print_all log (log_pieces info p.main_file 115 (codes "Execution continued") ∷ [])
              >>= λ log.
                  (init_paging p.boxes es tables >>= λ paged.
                  (print_all log own_tables_lines >>= λ log. ok (
                    record { segments = set_up.2; tables = paged.1; root = paged.0 },
                    log,
                    exit_qemu success,
                  ))))))

  -- The panic handler, with the text of the panic.
  unfoldable pub handle_panic : List Access → Text → Outcome (List Access × (ℕ × ℕ))
  handle_panic log message =
      print_all log (log_pieces error p.main_file 42 (codes "PANIC: " ++ message) ∷ []) >>= λ log.
      ok (log, exit_qemu fail)
