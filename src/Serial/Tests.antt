-- ===== src/Serial/Tests.antt =====
-- The theorems about the serial port, at concrete inputs.
use osdev_hikalium.Prelude.{ℕ, ◌≡◌, refl, List, [], ◌∷◌, arith}
use osdev_hikalium.Prelude.Usize.{ok}
use osdev_hikalium.Serial.{Access, init, send_str}
use osdev_hikalium.Serial.Uart.{Uart, IsReady, uart_after, init-IsReady}
use osdev_hikalium.Serial.Send.{Drains, Transmits, send_str-Transmits}

abbrev uart : Uart
uart = record {
  divisor_low = 12;
  divisor_high = 0;
  interrupt_enable = 1;
  fifo_control = 0;
  line_control = 0;
  modem_control = 0;
  sent = [];
}

init-IsReady_example :
    (log : List Access) × (init 0x3f8 [] ≡ ok log) × IsReady uart (uart_after 0x3f8 uart log)
init-IsReady_example = init-IsReady 0x3f8 uart (omega arith) (omega arith)

-- A device that is always ready.
abbrev idle : List Access → ℕ
idle log = 0x60

idle-Drains : Drains idle 0x3f8 1
idle-Drains log = (0, omega arith, refl)

send_str-Transmits_example :
    (end : List Access) × (send_str idle 1 0x3f8 [] (0x4f ∷ 0x3042 ∷ []) ≡ ok end)
    × Transmits idle 0x3f8 [] (0x4f ∷ 0x3042 ∷ []) end
send_str-Transmits_example =
    send_str-Transmits idle 0x3f8 1 [] (0x4f ∷ 0x3042 ∷ []) (omega arith) idle-Drains

abbrev two_sent :
    (end : List Access) × (send_str idle 1 0x3f8 [] (0x4f ∷ 0x3042 ∷ []) ≡ ok end)
    × Transmits idle 0x3f8 [] (0x4f ∷ 0x3042 ∷ []) end
two_sent = send_str-Transmits idle 0x3f8 1 [] (0x4f ∷ 0x3042 ∷ []) (omega arith) idle-Drains
