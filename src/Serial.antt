-- ===== src/Serial.antt =====
-- The serial port of wasabi/src/serial.rs. The device is a parameter: what its line status register
-- shows when it is read, by the number of accesses to ports so far.
use osdev_hikalium.Prelude.{
  ℕ, zero, suc, ◌+◌, ◌-◌, ◌*◌, ◌/◌, ◌%◌, ◌^◌, ◌≤◌, ◌<◌, ◌≡◌, refl, bit_and, ltb, ◌==◌,
  if◌then◌else◌, List, [], ◌∷◌, ◌++◌,
}
use osdev_hikalium.Prelude.Usize.{Outcome, ok, panic, out_of_fuel, ◌>>=◌}
pub mod Send
pub mod Uart
mod Tests

-- What happened at the ports, the latest last.
pub data Access : Type 0 where
  wrote : ℕ → ℕ → Access
  polled : ℕ → Access

-- The port of register number k: the addition of `u16` panics where it overflows.
abbrev pub register : ℕ → ℕ → Outcome ℕ
register base k = if ltb (base + k) (2 ^ 16) then ok (base + k) else panic

-- `write_io_port_u8`.
abbrev pub write_io_port_u8 : List Access → ℕ → ℕ → List Access
write_io_port_u8 log port data_byte = log ++ (wrote port (data_byte % 2 ^ 8) ∷ [])

abbrev pub write_register : List Access → ℕ → ℕ → ℕ → Outcome (List Access)
write_register log base k data_byte = do
  port ← register base k
  ok (write_io_port_u8 log port data_byte)

abbrev pub com1 : ℕ
com1 = 0x3f8

abbrev pub baud_divisor : ℕ
baud_divisor = 0x0001

-- `SerialPort::init`.
unfoldable pub init : ℕ → List Access → Outcome (List Access)
init base log = do
  log ← write_register log base 1 0x00
  log ← write_register log base 3 0x80
  log ← write_register log base 0 (bit_and baud_divisor 0xff)
  log ← write_register log base 1 (baud_divisor / 2 ^ 8)
  log ← write_register log base 3 0x03
  log ← write_register log base 2 0xC7
  write_register log base 4 0x08

module _ (line_status : List Access → ℕ) where
  -- `SerialPort::send_char`, with at most `fuel` polls.
  unfoldable pub send_char : ℕ → ℕ → List Access → ℕ → Outcome (List Access)
  send_char zero base log c = out_of_fuel
  send_char (suc fuel) base log c =
      let again : ℕ → Outcome (List Access) =
        λ port. send_char fuel base (log ++ (polled port ∷ [])) c in
      register base 5 >>= λ port.
      (if bit_and (line_status log) 0x20 == 0
        then again port
        else ok (write_io_port_u8 (log ++ (polled port ∷ [])) base c))

  -- `SerialPort::send_str`, on the characters of the string.
  unfoldable pub send_str : ℕ → ℕ → List Access → List ℕ → Outcome (List Access)
  send_str fuel base log [] = ok log
  send_str fuel base log (c ∷ cs) = do log ← send_char fuel base log c; send_str fuel base log cs

  -- `write_str` of `fmt::Write`, which writes to a default port.
  unfoldable pub write_str : ℕ → List Access → List ℕ → Outcome (List Access)
  write_str fuel log s = send_str fuel com1 log s
