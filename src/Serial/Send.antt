-- ===== src/Serial/Send.antt =====
-- The polling of `send_char` in wasabi/src/serial.rs ends when the device becomes ready, and `send_str`
-- sends the low bytes of the characters in their order.
use osdev_hikalium.Prelude.{
  ℕ, zero, suc, ◌+◌, ◌%◌, ◌^◌, ◌<◌, ◌≡◌, refl, sym, ap, ◌∙◌, inl, inr, Bool, not, true, false,
  Bool-cases, bit_and, ◌==◌, if◌then◌else◌, List, [], ◌∷◌, ◌++◌, append_assoc, append-nil, map,
  replicate, arith,
}
use osdev_hikalium.Prelude.Usize.{ok}
use osdev_hikalium.Serial.{Access, wrote, polled, register, send_char, send_str}

-- The bytes that a log wrote to a port.
abbrev pub bytes_at : ℕ → List Access → List ℕ
bytes_at port [] = []
bytes_at port (wrote p v ∷ log) = if p == port then v ∷ bytes_at port log else bytes_at port log
bytes_at port (polled p ∷ log) = bytes_at port log

bytes_at-append :
    (port : ℕ) (xs ys : List Access)
    → bytes_at port (xs ++ ys) ≡ bytes_at port xs ++ bytes_at port ys
bytes_at-append port [] ys = refl
bytes_at-append port (wrote p v ∷ xs) ys = elim (Bool-cases (p == port)) [
  | inl e ↦ rw (e, bytes_at-append port xs ys) refl
  | inr e ↦ rw (e, bytes_at-append port xs ys) refl
]
bytes_at-append port (polled p ∷ xs) ys = bytes_at-append port xs ys

module _ (line_status : List Access → ℕ) (base : ℕ) where
  -- The transmitter holding register is empty, as the line status shows it.
  abbrev pub ready : List Access → Bool
  ready log = not (bit_and (line_status log) 0x20 == 0)

  abbrev pub polls : ℕ → List Access
  polls n = replicate n (polled (base + 5))

  -- The device is ready after fewer than `bound` polls in a row, whatever happened before.
  abbrev pub Drains : ℕ → Type 0
  Drains bound = (log : List Access) → (k : ℕ) × (k < bound) × (ready (log ++ polls k) ≡ true)

  -- From one log to the other, the characters are sent: for each, the status is polled until it shows
  -- ready, and then the low byte is written.
  pub data Transmits : List Access → List ℕ → List Access → Type 0 where
    finished : (log : List Access) → Transmits log [] log
    sent :
        (k c : ℕ) (cs : List ℕ) (log end : List Access)
        → ready (log ++ polls k) ≡ true
        → ((j : ℕ) → j < k → ready (log ++ polls j) ≡ false)
        → Transmits (log ++ polls (suc k) ++ (wrote base (c % 2 ^ 8) ∷ [])) cs end
        → Transmits log (c ∷ cs) end

  register-poll : base + 5 < 2 ^ 16 → register base 5 ≡ ok (base + 5)
  register-poll h = ground arith

  -- What send_char leaves.
  record Polled (fuel : ℕ) (log : List Access) (c : ℕ) : Type 0 where
    count : ℕ
    becomes_ready : ready (log ++ polls count) ≡ true
    waits : (j : ℕ) → j < count → ready (log ++ polls j) ≡ false
    result :
        send_char line_status fuel base log c
        ≡ ok (log ++ polls (suc count) ++ (wrote base (c % 2 ^ 8) ∷ []))

  not_ready : (log : List Access) → bit_and (line_status log) 0x20 == 0 ≡ true → ready log ≡ false
  not_ready log busy = rw busy refl

  -- One more poll before the ones that follow.
  poll_first : (log : List Access) (n : ℕ) → (log ++ polls 1) ++ polls n ≡ log ++ polls (suc n)
  poll_first log n = append_assoc log (polls 1) (polls n)

  waits_more :
      (log : List Access) (n : ℕ)
      → bit_and (line_status log) 0x20 == 0 ≡ true
      → ((j : ℕ) → j < n → ready ((log ++ polls 1) ++ polls j) ≡ false)
      → (j : ℕ) → j < suc n
      → ready (log ++ polls j) ≡ false
  waits_more log n busy waits zero lt = ap ready (append-nil log) ∙ not_ready log busy
  waits_more log n busy waits (suc j) lt = ap ready (sym (poll_first log j)) ∙ waits j (omega arith)

  one_poll_more :
      (fuel c : ℕ) (log : List Access)
      → base + 5 < 2 ^ 16
      → bit_and (line_status log) 0x20 == 0 ≡ true
      → Polled fuel (log ++ polls 1) c
      → Polled (suc fuel) log c
  unfolding send_char
  one_poll_more fuel c log h busy p = record {
    count = suc p.count;
    becomes_ready = rw (← (poll_first log p.count)) p.becomes_ready;
    waits = waits_more log p.count busy p.waits;
    result = rw (register-poll h, busy, p.result, poll_first log (suc p.count)) refl;
  }

  send_char-Polled :
      (fuel k c : ℕ) (log : List Access)
      → base + 5 < 2 ^ 16
      → k < fuel
      → ready (log ++ polls k) ≡ true
      → Polled fuel log c
  unfolding send_char
  send_char-Polled zero k c log h lt r = absurd (omega arith)
  send_char-Polled (suc fuel) zero c log h lt r = record {
    count = 0;
    becomes_ready = r;
    waits = λ j lt. absurd (omega arith);
    result = rw (register-poll h, idle) refl;
  }
    where
      idle : bit_and (line_status log) 0x20 == 0 ≡ false
      idle = ground (arith, sym (ap ready (append-nil log)) ∙ r)
  send_char-Polled (suc fuel) (suc k) c log h lt r =
      elim (Bool-cases (bit_and (line_status log) 0x20 == 0)) [
        | inl busy ↦ one_poll_more fuel c log h busy (
            send_char-Polled fuel k c (log ++ polls 1) h (omega arith)
              (ap ready (poll_first log k) ∙ r))
        | inr idle ↦ record {
          count = 0;
          becomes_ready = ap ready (append-nil log) ∙ (rw idle refl);
          waits = λ j lt. absurd (omega arith);
          result = rw (register-poll h, idle) refl;
        }
      ]

  -- When the ports are in range and the device becomes ready within fewer than fuel polls from any
  -- state, send_str ends without a panic and with fuel to spare, and for each character in order
  -- it polls the line status until this shows ready for the first time and then writes the low
  -- byte.
  pub send_str-Transmits :
      (fuel : ℕ) (log : List Access) (s : List ℕ)
      → base + 5 < 2 ^ 16
      → Drains fuel
      → (end : List Access) × (send_str line_status fuel base log s ≡ ok end) × Transmits log s end
  unfolding send_str
  send_str-Transmits fuel log [] h drains = (log, refl, finished log)
  send_str-Transmits fuel log (c ∷ cs) h drains =
      let k = drains log in
      let p = send_char-Polled fuel k.0 c log h k.1 k.2 in
      let rest =
        send_str-Transmits fuel (log ++ polls (suc p.count) ++ (wrote base (c % 2 ^ 8) ∷ [])) cs h
          drains in
      (rest.0, rw p.result rest.1, sent p.count c cs log rest.0 p.becomes_ready p.waits rest.2)

  bytes_at-polls : (n : ℕ) → bytes_at base (polls n) ≡ []
  bytes_at-polls zero = refl
  bytes_at-polls (suc n) = bytes_at-polls n

  -- A log that arises by sending a string writes to the data port, after what was written before,
  -- the low bytes of the characters in order and nothing else.
  pub Transmits-bytes_at :
      (s : List ℕ) (log end : List Access)
      → Transmits log s end
      → bytes_at base end ≡ bytes_at base log ++ map (λ c. c % 2 ^ 8) s
  Transmits-bytes_at [] log end (finished same) = sym (append-nil (bytes_at base log))
  Transmits-bytes_at (c ∷ cs) log end (sent k _ _ _ _ r w rest) =
      let self : (base == base) ≡ true = ground arith in
      Transmits-bytes_at cs _ end rest
      ∙ (rw
          (
            bytes_at-append base (log ++ polls (suc k)) (wrote base (c % 2 ^ 8) ∷ []),
            bytes_at-append base log (polls (suc k)),
            bytes_at-polls k,
            self,
            append-nil (bytes_at base log),
          )
          (append_assoc (bytes_at base log) (c % 2 ^ 8 ∷ []) (map (λ c. c % 2 ^ 8) cs)))
