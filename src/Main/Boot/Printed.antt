-- ===== src/Main/Boot/Printed.antt =====
-- What the stages of `efi_main` of wasabi/src/main.rs send over the serial port.
use mathlib.Core.List.{map-append}
use osdev_hikalium.Prelude.{
  ℕ, ◌+◌, ◌%◌, ◌^◌, ◌<◌, ◌≡◌, refl, sym, ◌∙◌, inl, inr, true, Bool-cases, ltb, lt→ltb,
  if◌then◌else◌, some, List, [], ◌∷◌, ◌++◌, append_assoc, append-nil, map, length, All, arith,
}
use osdev_hikalium.Prelude.Usize.{Outcome, ok, word_mod}
use osdev_hikalium.Print.Format.{Text, codes}
use osdev_hikalium.Print.Hexdump.{concat, lines, hexdump_bytes-lines}
use osdev_hikalium.Print.Log.{error, log_pieces, line_pieces, global_print-Sends, hexdump}
use osdev_hikalium.Serial.{Access, com1}
use osdev_hikalium.Serial.Send.{bytes_at, Drains}
use osdev_hikalium.Uefi.Types.{EfiMemoryDescriptor, conventional_memory, same_type}
use osdev_hikalium.Uefi.Boot.{conventional_pages}
use osdev_hikalium.Uefi.Vram.{EfiLoadedImageProtocol, locate_loaded_image_protocal}
use osdev_hikalium.X86.Handler.{interrupt_info, exception, break_point, inthandler_returns}
use osdev_hikalium.Main.Boot.{
  Platform, Limits, print_all, greet, banner, image_lines, list_memory, format_descriptor,
  message_lines, handle_panic, trigger_debug_interrupt,
}

-- From one log to the other, the low bytes of the text went out.
pub record Says (from : List Access) (text : Text) (to : List Access) : Type 0 where
  pub bytes : bytes_at com1 to ≡ bytes_at com1 from ++ map (λ c. c % 2 ^ 8) text

infixr 5 ◌>>>◌
pub ◌>>>◌ : {a b c : List Access} {s t : Text} → Says a s b → Says b t c → Says a (s ++ t) c
◌>>>◌ {a} {b} {c} {s} {t} e f = record {
  bytes =
      f.bytes
      ∙ (rw (e.bytes, map-append (λ c. c % 2 ^ 8) s t) (append_assoc (bytes_at com1 a) _ _));
}

Says-nothing : (log : List Access) → Says log [] log
Says-nothing log = record { bytes = sym (append-nil (bytes_at com1 log)) }

-- A normal return of a log in which the text went out.
abbrev pub Prints : List Access → Text → Outcome (List Access) → Type 0
Prints log text out = (end : List Access) × (out ≡ ok end) × Says log text end

abbrev pub text_of : List (List Text) → Text
text_of [] = []
text_of (pieces ∷ prints) = concat pieces ++ text_of prints

-- The text of the loop over the map.
abbrev pub memory_text : List EfiMemoryDescriptor → Text
memory_text [] = []
memory_text (e ∷ es) =
    if same_type e.memory_type conventional_memory
    then concat (line_pieces (format_descriptor e)) ++ memory_text es
    else memory_text es

module _ (p : Platform) (n : Limits) (drains : Drains p.line_status com1 n.polls) where
  pub print_all-Prints :
      (prints : List (List Text)) (log : List Access)
      → Prints log (text_of prints) (print_all p n log prints)
  unfolding print_all
  print_all-Prints [] log = (log, refl, Says-nothing log)
  print_all-Prints (pieces ∷ prints) log =
      let first = global_print-Sends p.line_status n.polls pieces log drains in
      let rest = print_all-Prints prints first.0 in
      (rest.0, rw first.1 rest.1, record { bytes = first.2 } >>> rest.2)

  hexdump-Prints :
      (chunks : List (List ℕ)) (rest bytes : List ℕ) (log : List Access)
      → bytes ≡ concat chunks ++ rest
      → All (λ chunk. length chunk ≡ 16) chunks
      → length rest < 16
      → length chunks < 2 ^ 27
      → Prints log (lines 0 chunks rest ++ []) (hexdump p.line_status n.polls log bytes)
  unfolding hexdump
  hexdump-Prints chunks rest bytes log same sizes short fits =
      let sent = global_print-Sends p.line_status n.polls (lines 0 chunks rest ∷ []) log drains in
      (
        sent.0,
        rw (same, hexdump_bytes-lines chunks rest sizes short (omega arith)) sent.1,
        record { bytes = sent.2 },
      )

  pub greet-Prints :
      (image : EfiLoadedImageProtocol) (chunks : List (List ℕ)) (rest : List ℕ) (log : List Access)
      → locate_loaded_image_protocal p.image_handle p.services ≡ some image
      → p.system_table_bytes ≡ concat chunks ++ rest
      → All (λ chunk. length chunk ≡ 16) chunks
      → length rest < 16
      → length chunks < 2 ^ 27
      → Prints log
          (text_of (banner p n) ++ (text_of (image_lines p n image) ++ (lines 0 chunks rest ++ [])))
          (greet p n log)
  unfolding greet
  greet-Prints image chunks rest log found bytes sizes short fits =
      let a = print_all-Prints (banner p n) log in
      let b = print_all-Prints (image_lines p n image) a.0 in
      let c = hexdump-Prints chunks rest p.system_table_bytes b.0 bytes sizes short fits in
      (c.0, rw (a.1, found, b.1) c.1, a.2 >>> b.2 >>> c.2)

  pub list_memory-Prints :
      (es : List EfiMemoryDescriptor) (log : List Access) (total : ℕ)
      → total + conventional_pages es < word_mod
      → (pages : ℕ) × (end : List Access) × (list_memory p n log total es ≡ ok (pages, end))
        × (pages ≡ total + conventional_pages es)
        × Says log (memory_text es) end
  unfolding list_memory
  list_memory-Prints [] log total fits = (total, log, refl, omega arith, Says-nothing log)
  list_memory-Prints (e ∷ es) log total fits =
      elim (Bool-cases (same_type e.memory_type conventional_memory)) [
        | inl same ↦
            let here : conventional_pages (e ∷ es) ≡ e.number_of_pages + conventional_pages es =
              rw same refl in
            let room : ltb (total + e.number_of_pages) word_mod ≡ true =
              lt→ltb _ _ (omega (arith, here, fits)) in
            let line =
              global_print-Sends p.line_status n.polls (line_pieces (format_descriptor e)) log
                drains in
            let rest =
              list_memory-Prints es line.0 (total + e.number_of_pages)
                (omega (arith, here, fits)) in
            let said : Says log (concat (line_pieces (format_descriptor e)) ++ memory_text es)
                rest.1 =
              record { bytes = line.2 } >>> rest.4 in
            (
              rest.0,
              rest.1,
              rw (same, room, line.1) rest.2,
              omega (arith, rest.3, here),
              rw same said,
            )
        | inr other ↦
            let here : conventional_pages (e ∷ es) ≡ conventional_pages es =
              rw other (omega arith) in
            let rest = list_memory-Prints es log total (omega (arith, here, fits)) in
            (rest.0, rest.1, rw other rest.2, omega (arith, rest.3, here), rw other rest.4)
      ]

  pub trigger_debug_interrupt-Prints :
      (log : List Access)
      → Prints log
          (text_of
            (message_lines p n (interrupt_info p.interrupted ∷ exception 3 ∷ break_point ∷ [])))
          (trigger_debug_interrupt p n log)
  unfolding trigger_debug_interrupt
  trigger_debug_interrupt-Prints log =
      let handled = (inthandler_returns p.byte_at p.cr2 p.interrupted 3).1 refl in
      let sent =
        print_all-Prints
          (message_lines p n (interrupt_info p.interrupted ∷ exception 3 ∷ break_point ∷ [])) log in
      (sent.0, rw (handled, sent.1) refl, sent.2)

  -- A panic is printed, and the program ends with failure.
  handle_panic-Prints :
      (message : Text) (log : List Access)
      → (end : List Access) × (handle_panic p n log message ≡ ok (end, (0x4, 0x2)))
        × Says log (text_of (log_pieces error p.main_file 42 (codes "PANIC: " ++ message) ∷ [])) end
  unfolding handle_panic
  handle_panic-Prints message log =
      let sent =
        print_all-Prints (log_pieces error p.main_file 42 (codes "PANIC: " ++ message) ∷ []) log in
      (sent.0, rw sent.1 refl, sent.2)
