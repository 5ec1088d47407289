-- ===== src/Print/Log.antt =====
-- The printing of wasabi/src/print.rs to the serial port. `fmt::write` gives the pieces of its arguments to
-- `write_str` one after the other, and `global_print` unwraps a result that is never an error.
use mathlib.Core.List.{map-append}
use osdev_hikalium.Prelude.{
  ℕ, ◌+◌, ◌%◌, ◌^◌, ◌<◌, ◌≡◌, refl, ap, sym, ◌∙◌, List, [], ◌∷◌, ◌++◌, append_assoc, append-nil,
  map, arith,
}
use osdev_hikalium.Prelude.Usize.{Outcome, ok, ◌>>=◌}
use osdev_hikalium.Serial.{Access, write_str, com1}
use osdev_hikalium.Serial.Send.{bytes_at, Drains, send_str-Transmits, Transmits-bytes_at}
use osdev_hikalium.Print.{hexdump_bytes}
use osdev_hikalium.Print.Hexdump.{concat}
use osdev_hikalium.Print.Format.{Text, codes, left_3}
mod Example

-- The levels of the three macros.
pub data Level : Type 0 where
  info warn error : Level

abbrev pub tag : Level → Text
tag info = codes "[INFO] "
tag warn = codes "[WARN] "
tag error = codes "[ERROR] "

-- The pieces of `println!` and of `info!`, `warn!` and `error!`.
abbrev pub line_pieces : Text → List Text
line_pieces message = message ∷ codes "\n" ∷ []

abbrev pub log_pieces : Level → Text → ℕ → Text → List Text
log_pieces level file line message =
    tag level ∷ file ∷ codes ":" ∷ left_3 line ∷ codes ": " ∷ message ∷ codes "\n" ∷ []

module _ (line_status : List Access → ℕ) (fuel : ℕ) where
  unfoldable pub global_print : List Access → List Text → Outcome (List Access)
  global_print log [] = ok log
  global_print log (s ∷ ss) = do log ← write_str line_status fuel log s; global_print log ss

  -- `hexdump` of a value, on the bytes of it. They are printed piece by piece, as one text here.
  unfoldable pub hexdump : List Access → List ℕ → Outcome (List Access)
  hexdump log bytes = do text ← hexdump_bytes bytes; global_print log (text ∷ [])

  write_str-Sends :
      (log : List Access) (s : Text)
      → Drains line_status com1 fuel
      → (end : List Access) × (write_str line_status fuel log s ≡ ok end)
        × (bytes_at com1 end ≡ bytes_at com1 log ++ map (λ c. c % 2 ^ 8) s)
  unfolding write_str
  write_str-Sends log s drains =
      let sent = send_str-Transmits line_status com1 fuel log s (omega arith) drains in
      (sent.0, sent.1, Transmits-bytes_at line_status com1 s log sent.0 sent.2)

  -- When the serial device becomes ready within fewer than fuel polls from any state, global_print
  -- returns without a panic, and has written to the data port of the first serial port, after what
  -- was written before, the low bytes of the pieces in order and nothing else.
  pub global_print-Sends :
      (ss : List Text) (log : List Access)
      → Drains line_status com1 fuel
      → (end : List Access) × (global_print log ss ≡ ok end)
        × (bytes_at com1 end ≡ bytes_at com1 log ++ map (λ c. c % 2 ^ 8) (concat ss))
  unfolding global_print
  global_print-Sends [] log drains = (log, refl, sym (append-nil (bytes_at com1 log)))
  global_print-Sends (s ∷ ss) log drains =
      let first = write_str-Sends log s drains in
      let rest = global_print-Sends ss first.0 drains in
      (
        rest.0,
        rw first.1 rest.1,
        rest.2
            ∙ (rw (first.2, map-append (λ c. c % 2 ^ 8) s (concat ss))
                (append_assoc (bytes_at com1 log) _ _)),
      )
