-- ===== src/Serial/Uart.antt =====
-- What the writes of `SerialPort::init` in wasabi/src/serial.rs do to a UART, after the data sheet of the
-- 16550: bit 7 of register 3 gives registers 0 and 1 to the divisor.
use osdev_hikalium.Prelude.{
  ℕ, ◌+◌, ◌-◌, ◌*◌, ◌^◌, ◌≤◌, ◌<◌, ◌≡◌, refl, Bool, true, false, leb, ◌==◌, if◌then◌else◌, List, [],
  ◌∷◌, ◌++◌, arith,
}
use osdev_hikalium.Prelude.Usize.{ok}
use osdev_hikalium.Serial.{Access, wrote, polled, init, register}

pub record Uart : Type 0 where
  pub divisor_low : ℕ
  pub divisor_high : ℕ
  pub interrupt_enable : ℕ
  pub fifo_control : ℕ
  pub line_control : ℕ
  pub modem_control : ℕ
  pub sent : List ℕ

abbrev divisor_latch : Uart → Bool
divisor_latch u = leb 128 u.line_control

abbrev pub written : ℕ → ℕ → Uart → Uart
written k v u =
    if k == 0
    then (if divisor_latch u
        then record u { divisor_low = v }
        else record u { sent = u.sent ++ (v ∷ []) })
    else if k == 1
    then (if divisor_latch u
        then record u { divisor_high = v }
        else record u { interrupt_enable = v })
    else if k == 2
    then record u { fifo_control = v }
    else if k == 3
    then record u { line_control = v }
    else if k == 4
    then record u { modem_control = v }
    else u

-- The state of the UART at `base` after the accesses of a log.
unfoldable pub uart_after : ℕ → Uart → List Access → Uart
uart_after base u [] = u
uart_after base u (wrote port v ∷ log) =
    uart_after base (if leb base port then written (port - base) v u else u) log
uart_after base u (polled port ∷ log) = uart_after base u log

-- 115200 baud with 8 data bits, no parity and one stop bit, no interrupt, the latch closed, the
-- FIFOs on and cleared with a threshold of 14 bytes, and no byte sent.
pub record IsReady (before after : Uart) : Type 0 where
  pub divisor : after.divisor_low + 256 * after.divisor_high ≡ 1
  pub no_interrupt : after.interrupt_enable ≡ 0
  pub line : after.line_control ≡ 0x03
  pub fifo : after.fifo_control ≡ 0xC7
  pub nothing_sent : after.sent ≡ before.sent

abbrev init_log : ℕ → List Access
init_log base =
    wrote (base + 1) 0
    ∷ wrote (base + 3) 0x80
    ∷ wrote (base + 0) 1
    ∷ wrote (base + 1) 0
    ∷ wrote (base + 3) 3
    ∷ wrote (base + 2) 0xC7
    ∷ wrote (base + 4) 8
    ∷ []

register-ok : (base k : ℕ) → k ≤ 5 → base + 5 < 2 ^ 16 → register base k ≡ ok (base + k)
register-ok base k le h = ground arith

init-log : (base : ℕ) → base + 5 < 2 ^ 16 → init base [] ≡ ok (init_log base)
unfolding init
init-log base h =
    simp
      (
        register-ok base 0 (omega arith) h,
        register-ok base 1 (omega arith) h,
        register-ok base 2 (omega arith) h,
        register-ok base 3 (omega arith) h,
        register-ok base 4 (omega arith) h,
      )
      refl

uart_after-wrote :
    (base k v : ℕ) (u : Uart) (log : List Access)
    → uart_after base u (wrote (base + k) v ∷ log) ≡ uart_after base (written k v u) log
unfolding uart_after
uart_after-wrote base k v u log =
    let back : base + k - base ≡ k = omega arith in
    let above : leb base (base + k) ≡ true = ground arith in rw (above, back) refl

uart_after-nil : (base : ℕ) (u : Uart) → uart_after base u [] ≡ u
unfolding uart_after
uart_after-nil base u = refl

uart_after-init_log :
    (base : ℕ) (u : Uart)
    → leb 128 u.line_control ≡ false
    → uart_after base u (init_log base) ≡ record u {
      divisor_low = 1;
      divisor_high = 0;
      interrupt_enable = 0;
      fifo_control = 0xC7;
      line_control = 3;
      modem_control = 8;
    }
uart_after-init_log base u latch = simp (uart_after-wrote, uart_after-nil, latch) refl

-- For ports in range and a UART whose divisor latch is closed, init does not panic and leaves the
-- UART with divisor 1, interrupts off, 8 data bits without parity and one stop bit, the latch
-- closed, the FIFO control byte 0xC7, and no byte sent.
pub init-IsReady :
    (base : ℕ) (u : Uart)
    → base + 5 < 2 ^ 16
    → u.line_control < 128
    → (log : List Access) × (init base [] ≡ ok log) × IsReady u (uart_after base u log)
init-IsReady base u h latch = (
  init_log base,
  init-log base h,
  rw (uart_after-init_log base u (ground arith))
      record { divisor = refl; no_interrupt = refl; line = refl; fifo = refl; nothing_sent = refl },
)
