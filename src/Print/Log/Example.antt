-- ===== src/Print/Log/Example.antt =====
-- A line of `info!` of wasabi/src/print.rs on a port that is always ready.
use osdev_hikalium.Prelude.{ℕ, ◌%◌, ◌^◌, ◌≡◌, refl, List, [], ◌++◌, map, arith}
use osdev_hikalium.Prelude.Usize.{ok}
use osdev_hikalium.Serial.{Access, com1}
use osdev_hikalium.Serial.Send.{Drains, bytes_at}
use osdev_hikalium.Print.Format.{Text, codes, decimal}
use osdev_hikalium.Print.Log.{info, log_pieces, global_print, global_print-Sends}

abbrev idle : List Access → ℕ
idle log = 0x60

idle-Drains : Drains idle com1 1
idle-Drains log = (0, omega arith, refl)

abbrev pieces : List Text
pieces = log_pieces info (codes "src/main.rs") 63 (codes "info")

global_print-Sends_example :
    (end : List Access) × (global_print idle 1 [] pieces ≡ ok end)
    × (bytes_at com1 end ≡ [] ++ map (λ c. c % 2 ^ 8) (codes "[INFO] src/main.rs:63 : info\n"))
unfolding decimal
global_print-Sends_example = global_print-Sends idle 1 pieces [] idle-Drains
