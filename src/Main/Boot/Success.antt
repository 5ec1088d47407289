-- ===== src/Main/Boot/Success.antt =====
-- The two halves of `efi_main` of wasabi/src/main.rs reach their ends.
use osdev_hikalium.Prelude.{
  ℕ, ◌+◌, ◌*◌, ◌/◌, ◌%◌, ◌^◌, ◌≤◌, ◌<◌, ◌≡◌, refl, true, ltb, bit_or, if◌then◌else◌, some, List, [],
  ◌∷◌, ◌++◌, length, All,
}
use osdev_hikalium.Prelude.Usize.{Outcome, ok, word_mod}
use osdev_hikalium.Print.Format.{Text, codes}
use osdev_hikalium.Print.Hexdump.{concat, lines}
use osdev_hikalium.Print.Log.{info, log_pieces}
use osdev_hikalium.Serial.{Access, com1}
use osdev_hikalium.Serial.Send.{Drains}
use osdev_hikalium.Graphics.Pattern.Layers.{Shows}
use osdev_hikalium.Allocator.Regions.{IsHeap}
use osdev_hikalium.Allocator.Chain.{Chain}
use osdev_hikalium.Allocator.Init.{heap_of, IsMemoryMap}
use osdev_hikalium.Uefi.Types.{EfiMemoryDescriptor}
use osdev_hikalium.Uefi.MemoryMap.{MemoryMapHolder}
use osdev_hikalium.Uefi.Boot.{IsEnd, conventional_pages}
use osdev_hikalium.Uefi.Vram.{
  EfiLoadedImageProtocol, VramBufferInfo, answer, pixel_info, vram_bitmap,
  locate_loaded_image_protocal,
}
use osdev_hikalium.X86.Idt.{AreWords, IdtDescriptor}
use osdev_hikalium.Graphics.Font.{Screen}
use osdev_hikalium.Allocator.Memory.{Memory}
use osdev_hikalium.X86.Segments.{Segments, GdtWrapper, IsSetUp, init_exceptions-IsSetUp}
use osdev_hikalium.X86.Handler.{interrupt_info, exception, break_point}
use osdev_hikalium.X86.Paging.{Tables}
use osdev_hikalium.X86.Paging.Create.{AreAligned}
use osdev_hikalium.X86.Paging.Descend.{AreDistinct}
use osdev_hikalium.X86.Paging.Tree.{leaf}
use osdev_hikalium.Init.{init_paging-Identity}
use osdev_hikalium.Init.Runtime.{GivesMaps, descriptors_of}
use osdev_hikalium.Main.{screen_layers}
use osdev_hikalium.Main.Boot.{
  Platform, Limits, Started, TakenOver, take_over, exception_lines, banner, image_lines,
  total_lines, table_lines, message_lines, own_tables_lines,
}
use osdev_hikalium.Main.Boot.Printed.{
  Says, ◌>>>◌, text_of, memory_text, print_all-Prints, trigger_debug_interrupt-Prints,
}

-- The serial device, as `Drains` has it, and a system table of fewer than 2 ^ 31 bytes that are cut in lines of 16.
pub record CanPrint (p : Platform) (n : Limits) (chunks : List (List ℕ)) (rest : List ℕ)
    : Type 0 where
  pub drains : Drains p.line_status com1 n.polls
  pub bytes : p.system_table_bytes ≡ concat chunks ++ rest
  pub sizes : All (λ chunk. length chunk ≡ 16) chunks
  pub short : length rest < 16
  pub few : length chunks < 2 ^ 27

-- The firmware has both protocols, with a screen that the test pattern fits on.
pub record HasProtocols (p : Platform) (image : EfiLoadedImageProtocol) : Type 0 where
  pub finds_image : locate_loaded_image_protocal p.image_handle p.services ≡ some image
  pub finds_screen : (answer p.services).0 ≡ true
  pub wide : 129 ≤ (pixel_info p.services).horizontal_resolution
  pub within :
      (pixel_info p.services).horizontal_resolution ≤ (pixel_info p.services).pixels_per_scan_line
  pub columns : (pixel_info p.services).horizontal_resolution < 2 ^ 30
  pub high : 256 ≤ (pixel_info p.services).vertical_resolution
  pub rows : (pixel_info p.services).vertical_resolution < 2 ^ 30
  pub small :
      (pixel_info p.services).vertical_resolution * (pixel_info p.services).pixels_per_scan_line * 4
      < 2 ^ 63
  pub in_memory :
      (answer p.services).1.mode.frame_buffer_base
        + (pixel_info p.services).vertical_resolution
          * (pixel_info p.services).pixels_per_scan_line
          * 4
      < word_mod

-- The firmware gives maps of `count` descriptors, and takes a key in the end; the sizes of the memory in a
-- map add up to less than 2 ^ 64 bytes.
pub record HasMemory (p : Platform) (n : Limits) (count : MemoryMapHolder → ℕ) (last : ℕ)
    : Type 0 where
  pub maps : GivesMaps p.firmware n.calls count
  pub in_time : last < n.rounds
  pub accepts :
      (map : MemoryMapHolder)
      → p.firmware.exit_boot_services last (p.firmware.get_memory_map last map).1.map_key ≡ true
  pub summed :
      (j : ℕ) (prior : MemoryMapHolder)
      → let map = (p.firmware.get_memory_map j prior).1 in
        conventional_pages (descriptors_of map (count map)) * 4096 < word_mod

-- The addresses that the compiler, the linker and the heap choose.
pub record HasAddresses (p : Platform) (boxed bound limit : ℕ) : Type 0 where
  pub entries : AreWords p.entries
  pub task : p.tss_addr < 2 ^ 64
  pub aligned : AreAligned p.boxes
  pub distinct : AreDistinct p.boxes limit
  pub enough : boxed + 1 + 3 * (bound / 4096) ≤ limit

-- All that the first half prints, for a memory map.
abbrev pub bring_up_text :
    Platform
    → Limits
    → EfiLoadedImageProtocol
    → List (List ℕ)
    → List ℕ
    → Tables
    → List EfiMemoryDescriptor
    → Text
bring_up_text p n image chunks rest t es =
    (text_of (banner p n) ++ (text_of (image_lines p n image) ++ (lines 0 chunks rest ++ [])))
    ++ (memory_text es
        ++ (text_of (total_lines p n (conventional_pages es) (conventional_pages es * 4096))
            ++ text_of (table_lines p n t)))

-- All that the second half prints.
abbrev pub take_over_text : Platform → Limits → Text
take_over_text p n =
    text_of (exception_lines p n)
    ++ (text_of (log_pieces info p.main_file 111 (codes "Exception initialized!") ∷ [])
        ++ (text_of
              (message_lines p n (interrupt_info p.interrupted ∷ exception 3 ∷ break_point ∷ []))
            ++ (text_of (log_pieces info p.main_file 115 (codes "Execution continued") ∷ [])
                ++ text_of (own_tables_lines p n))))

-- `out` is a normal return of the first half.
pub record BringsUp (p : Platform) (n : Limits) (image : EfiLoadedImageProtocol)
    (chunks : List (List ℕ)) (rest : List ℕ) (count : MemoryMapHolder → ℕ) (log : List Access)
    (screen : Screen) (tables : Tables) (out : Outcome (Started × List Access)) : Type 0 where
  pub started : Started
  pub end : List Access
  pub map : MemoryMapHolder
  pub returns : out ≡ ok (started, end)
  pub round : ℕ
  pub key_taken : p.firmware.exit_boot_services round map.map_key ≡ true
  pub listed : started.memory_map ≡ descriptors_of map (count map)
  pub printed :
      Says log (bring_up_text p n image chunks rest tables (descriptors_of map (count map))) end
  pub vram : VramBufferInfo
  pub at_base : vram.buf ≡ (answer p.services).1.mode.frame_buffer_base
  pub shows :
      Shows
        (vram_bitmap vram)
        (pixel_info p.services).vertical_resolution
        (pixel_info p.services).pixels_per_scan_line
        (screen_layers p.font_lines
          (pixel_info p.services).horizontal_resolution
          (pixel_info p.services).vertical_resolution
          (pixel_info p.services).pixels_per_scan_line)
        screen.1
        started.screen.1
  pub represents : Chain started.heap.1 started.heap.0 (heap_of (descriptors_of map (count map)) [])
  pub heap : IsHeap (heap_of (descriptors_of map (count map)) [])

-- `out` is a normal return of the second half.
pub record TakesOver (p : Platform) (n : Limits) (log : List Access) (es : List EfiMemoryDescriptor)
    (out : Outcome (TakenOver × List Access × (ℕ × ℕ))) : Type 0 where
  pub after : TakenOver
  pub end : List Access
  pub returns : out ≡ ok (after, end, (0x4, 0x1))
  pub printed : Says log (take_over_text p n) end
  pub gdt : GdtWrapper
  pub idt : List IdtDescriptor
  pub set_up : IsSetUp p.entries p.tss_addr p.gdt_addr p.idt_addr gdt idt after.segments
  pub memory_end : ℕ
  pub is_end : IsEnd 0x1_0000_0000 es memory_end
  pub identity :
      (addr : ℕ)
      → addr < 2 ^ 48
      → leaf after.tables 3 after.root addr
        ≡ (if ltb addr memory_end then bit_or (addr / 4096 * 4096) 3 else 0)

starts_aligned :
    (es : List EfiMemoryDescriptor) → IsMemoryMap es → All (λ e. e.physical_start % 4096 ≡ 0) es
starts_aligned [] valid = tt
starts_aligned (e ∷ es) valid = (valid.0.0, starts_aligned es valid.2)

module _ (p : Platform) (n : Limits) (bound limit : ℕ) (log : List Access)
    (es : List EfiMemoryDescriptor) (segments : Segments) (tables : Tables) where
  -- When the serial device becomes ready within the fuel, the map has whole pages that do not
  -- overlap and end at some bound of 4 GiB up to 2 ^ 48 at most, the boxes of tables are
  -- page-aligned and those that are needed differ, and the entry points and the task state segment
  -- have 64-bit addresses, the second half of efi_main, from init_exceptions on, ends QEMU with
  -- success, provided that the heap serves its boxes at these addresses: all its lines went out
  -- over the serial port in order, the breakpoint returned, the segments and gates are set up, and
  -- the tables that cr3 gets map exactly the addresses below the end of memory to themselves.
  pub take_over-TakesOver :
      Drains p.line_status com1 n.polls
      → HasAddresses p tables.boxed bound limit
      → 0x1_0000_0000 ≤ bound
      → bound ≤ 2 ^ 48
      → IsMemoryMap es
      → All (λ e. e.physical_start + e.number_of_pages * 4096 ≤ bound) es
      → TakesOver p n log es (take_over p n log es segments tables)
  unfolding take_over
  take_over-TakesOver drains addresses from_4_gib to_48_bits valid bounded =
      let set_up =
        init_exceptions-IsSetUp p.entries p.tss_addr p.gdt_addr p.idt_addr segments
          addresses.entries addresses.task in
      let loaded = print_all-Prints p n drains (exception_lines p n) log in
      let told =
        print_all-Prints p n drains
          (log_pieces info p.main_file 111 (codes "Exception initialized!") ∷ []) loaded.0 in
      let hit = trigger_debug_interrupt-Prints p n drains told.0 in
      let resumed =
        print_all-Prints p n drains
          (log_pieces info p.main_file 115 (codes "Execution continued") ∷ []) hit.0 in
      let paged =
        init_paging-Identity p.boxes limit bound es tables addresses.aligned addresses.distinct
          from_4_gib to_48_bits addresses.enough bounded (starts_aligned es valid) in
      let ended = print_all-Prints p n drains (own_tables_lines p n) resumed.0 in
      record {
        after = record { segments = set_up.2; tables = paged.1; root = p.boxes tables.boxed };
        end = ended.0;
        returns = rw (loaded.1, told.1, hit.1, resumed.1, paged.2, ended.1, set_up.3) refl;
        printed = loaded.2 >>> told.2 >>> hit.2 >>> resumed.2 >>> ended.2;
        gdt = set_up.0;
        idt = set_up.1;
        set_up = set_up.4;
        memory_end = paged.0;
        is_end = paged.3;
        identity = paged.4;
      }
