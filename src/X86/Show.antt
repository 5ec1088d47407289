-- ===== src/X86/Show.antt =====
-- The texts that wasabi/src/x86.rs formats: entries and tables of the page tables, the state at an
-- interrupt, and the messages of its handler.
use osdev_hikalium.Prelude.{ℕ, zero, suc, ◌+◌, ◌-◌, ◌*◌, Bool, if◌then◌else◌, List, [], ◌∷◌, ◌++◌}
use osdev_hikalium.Print.{hex_digits}
use osdev_hikalium.Print.Format.{
  Text, codes, decimal, right_3, hex_018, alternate_hex_018, alternate_hex_06, alternate_pointer,
  pad_left, upper_hex,
}
use osdev_hikalium.X86.Paging.{Tables, is_present, is_writable, is_user, entry_at}
use osdev_hikalium.X86.Handler.{
  InterrupInfo, Mode, user, supervisor, Access, instruction_fetch, data_write, data_read, Message,
  interrupt_info, exception, break_point, invalid_opcode, double_fault, general_protection_fault,
  page_fault, not_handled, bytes_at_rip, bytes, cr2_is, caused_by,
}
pub mod Read
mod Example

-- `Entry::format` on the entry at an address, with its value.
unfoldable pub format_entry : ℕ → ℕ → ℕ → Text
format_entry level self value =
    (codes "L" ++ decimal level ++ codes "Entry @ " ++ alternate_pointer self ++ codes " { ")
    ++ (hex_018 value
        ++ (codes " "
            ++ ((if is_present value then codes "P" else codes "N")
                ++ ((if is_writable value then codes "W" else codes "R")
                    ++ ((if is_user value then codes "U" else codes "S") ++ codes " }")))))

-- The loop of `Table::format` from index i on, over n entries.
unfoldable pub format_entries : ℕ → Tables → ℕ → ℕ → ℕ → Text
format_entries level t self i zero = []
format_entries level t self i (suc n) =
    let rest = format_entries level t self (suc i) n in
    let e = entry_at self i in
    if is_present (t.mem e)
    then (codes " entry["
        ++ right_3 i
        ++ codes "] = "
        ++ format_entry level e (t.mem e)
        ++ codes "\n")
      ++ rest
    else rest

unfoldable pub format_table : ℕ → Tables → ℕ → Text
format_table level t self =
    codes "L"
    ++ decimal level
    ++ codes "Table @ "
    ++ alternate_pointer self
    ++ codes " {\n"
    ++ format_entries level t self 0 512
    ++ codes "}\n"

-- The `Debug` of `InterrupInfo`.
unfoldable pub format_info : InterrupInfo → Text
format_info info =
    codes "\n        {\n            rip: "
    ++ alternate_hex_018 info.ctx.rip
    ++ codes ", CS: "
    ++ alternate_hex_06 info.ctx.cs
    ++ codes ",\n            rsp: "
    ++ alternate_hex_018 info.ctx.rsp
    ++ codes ", SS: "
    ++ alternate_hex_06 info.ctx.ss
    ++ codes ",\n            rbp: "
    ++ alternate_hex_018 info.greg.rbp
    ++ codes ",\n\n            rflags: "
    ++ alternate_hex_018 info.ctx.rflags
    ++ codes ",\n            error_code: "
    ++ alternate_hex_018 info.error_code
    ++ codes ",\n\n            rax: "
    ++ alternate_hex_018 info.greg.rax
    ++ codes ", rcx: "
    ++ alternate_hex_018 info.greg.rcx
    ++ codes ",\n            rdx: "
    ++ alternate_hex_018 info.greg.rdx
    ++ codes ", rbx: "
    ++ alternate_hex_018 info.greg.rbx
    ++ codes ",\n            rsi: "
    ++ alternate_hex_018 info.greg.rsi
    ++ codes ", rdi: "
    ++ alternate_hex_018 info.greg.rdi
    ++ codes ",\n            r8:  "
    ++ alternate_hex_018 info.greg.r8
    ++ codes ", r9:  "
    ++ alternate_hex_018 info.greg.r9
    ++ codes ",\n            r10: "
    ++ alternate_hex_018 info.greg.r10
    ++ codes ", r11: "
    ++ alternate_hex_018 info.greg.r11
    ++ codes ",\n            r12: "
    ++ alternate_hex_018 info.greg.r12
    ++ codes ", r13: "
    ++ alternate_hex_018 info.greg.r13
    ++ codes ",\n            r14: "
    ++ alternate_hex_018 info.greg.r14
    ++ codes ", r15: "
    ++ alternate_hex_018 info.greg.r15
    ++ codes ",\n        }"

abbrev pub mode_text : Mode → Text
mode_text user = codes "user"
mode_text supervisor = codes "supervisor"

abbrev pub access_text : Access → Text
access_text instruction_fetch = codes "instruction fetch"
access_text data_write = codes "data write"
access_text data_read = codes "data read"

-- `{bytes:02X?}`.
abbrev pub more_bytes : List ℕ → Text
more_bytes [] = codes "]"
more_bytes (b ∷ bs) = codes ", " ++ hex_digits 2 b ++ more_bytes bs

abbrev pub byte_list : List ℕ → Text
byte_list [] = codes "[]"
byte_list (b ∷ bs) = codes "[" ++ hex_digits 2 b ++ more_bytes bs

-- The text of a message of `inthandler`, and the line of its macro.
unfoldable pub message_text : Message → Text
message_text (interrupt_info info) = codes "Interrupt Info: " ++ format_info info
message_text (exception index) =
    codes "Exception 0x" ++ pad_left b'0' 2 (upper_hex index) ++ codes ": "
message_text break_point = codes "BreakPoint"
message_text invalid_opcode = codes "Invalid Opcode"
message_text double_fault = codes "Double Fault"
message_text general_protection_fault = codes "General Protection Fault"
message_text (bytes_at_rip rip) = codes "Bytes @ RIP(" ++ alternate_hex_018 rip ++ codes ")"
message_text (bytes bs) = codes " = " ++ byte_list bs
message_text page_fault = codes "Page Fault"
message_text (cr2_is cr2) = codes "CR2=" ++ hex_018 cr2
message_text (caused_by mode access present invalid) =
    codes "Caused by: A "
    ++ mode_text mode
    ++ codes " mode "
    ++ access_text access
    ++ codes " on a "
    ++ (if present then codes "present" else codes "non-present")
    ++ codes " page. page structures are "
    ++ (if invalid then codes "invalid" else codes "valid")
message_text not_handled = codes "Not handled"

-- The line of the macro that logs a message.
abbrev pub message_line : Message → ℕ
message_line (interrupt_info info) = 583
message_line (exception index) = 584
message_line break_point = 588
message_line invalid_opcode = 592
message_line double_fault = 595
message_line general_protection_fault = 598
message_line (bytes_at_rip rip) = 602
message_line (bytes bs) = 607
message_line page_fault = 610
message_line (cr2_is cr2) = 611
message_line (caused_by mode access present invalid) = 613
message_line not_handled = 640
