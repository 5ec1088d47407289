-- ===== src/Print/Hexdump.antt =====
-- The lines that `hexdump_bytes` of wasabi/src/print.rs prints.
use mathlib.Core.Path.{fun_ext}
use osdev_hikalium.Prelude.{
  ℕ, suc, ◌+◌, ◌-◌, ◌*◌, ◌^◌, ◌<◌, ◌≡◌, refl, sym, ap, ◌∙◌, ltb, ◌==◌, List, [], ◌∷◌, ◌++◌,
  append_assoc, append-nil, set, replicate, length, length-append, All, true, false, arith,
}
use osdev_hikalium.Prelude.Usize.{Outcome, ok, panic, fault, out_of_fuel, ◌>>=◌}
use osdev_hikalium.Print.{
  Dump, dump_byte, dump_bytes, finish_dump, hexdump_bytes, print_offset, print_byte, print_ascii,
  print_last_ascii, bar, take, pad,
}

abbrev pub print_bytes : List ℕ → List ℕ
print_bytes [] = []
print_bytes (v ∷ vs) = print_byte v ++ print_bytes vs

abbrev pub concat : List (List ℕ) → List ℕ
concat [] = []
concat (xs ∷ xss) = xs ++ concat xss

-- A line: the offset, the bytes, and the bytes as characters.
abbrev pub full_line : ℕ → List ℕ → List ℕ
full_line offset bytes = print_offset offset ++ print_bytes bytes ++ bar ++ print_ascii bytes ++ bar

-- The last line pads to the width of a full one.
abbrev pub last_line : ℕ → List ℕ → List ℕ
last_line offset [] = []
last_line offset (b ∷ bytes) =
    print_offset offset
    ++ print_bytes (b ∷ bytes)
    ++ pad (16 - length (b ∷ bytes))
    ++ bar
    ++ print_last_ascii (b ∷ bytes)
    ++ bar

abbrev pub lines : ℕ → List (List ℕ) → List ℕ → List ℕ
lines offset [] rest = last_line offset rest
lines offset (chunk ∷ chunks) rest = full_line offset chunk ++ lines (offset + 16) chunks rest

-- A line that has begun: the bytes so far are the first in `ascii`.
abbrev begun : ℕ → List ℕ → List ℕ → List ℕ → Dump
begun offset out bytes old = record {
  i = length bytes;
  ascii = bytes ++ old;
  offset = offset;
  out = out;
}

set-append :
    (xs : List ℕ) (o : ℕ) (old : List ℕ) (v : ℕ)
    → set (xs ++ (o ∷ old)) (length xs) v ≡ (xs ++ (v ∷ [])) ++ old
set-append [] o old v = refl
set-append (x ∷ xs) o old v = ap (λ l. x ∷ l) (set-append xs o old v)

length-snoc : (xs : List ℕ) (v : ℕ) → length (xs ++ (v ∷ [])) ≡ length xs + 1
length-snoc xs v = length-append xs (v ∷ [])

-- A byte that is neither the first nor the last of its line.
dump_byte-inside :
    (offset o v : ℕ) (out xs old : List ℕ)
    → 0 < length xs
    → length xs < 15
    → dump_byte (begun offset out xs (o ∷ old)) v
      ≡ ok (begun offset (out ++ print_byte v) (xs ++ (v ∷ [])) old)
unfolding dump_byte
dump_byte-inside offset o v out xs old pos h =
    let not_first : (length xs == 0) ≡ false = ground arith in
    let not_last : (length xs + 1 == 16) ≡ false = ground arith in
    rw (not_first, not_last, set-append xs o old v, length-snoc xs v) refl

dump_byte-first :
    (offset o v : ℕ) (out old : List ℕ)
    → dump_byte (begun offset out [] (o ∷ old)) v
      ≡ ok (begun offset (out ++ print_offset offset ++ print_byte v) (v ∷ []) old)
unfolding dump_byte
dump_byte-first offset o v out old = refl

dump_byte-last :
    (offset o v : ℕ) (out xs : List ℕ)
    → length xs ≡ 15
    → offset + 16 < 2 ^ 31
    → dump_byte (begun offset out xs (o ∷ [])) v
      ≡ ok (
          begun
            (offset + 16)
            (out ++ print_byte v ++ bar ++ print_ascii (xs ++ (v ∷ [])) ++ bar)
            []
            (xs ++ (v ∷ [])))
unfolding dump_byte
dump_byte-last offset o v out xs size fits =
    let room : ltb (offset + 16) (2 ^ 31) ≡ true = ground arith in
    let there = set-append xs o [] v ∙ append-nil (xs ++ (v ∷ [])) in
    let not_first : (length xs == 0) ≡ false = ground (arith, size) in
    let last : (length xs + 1 == 16) ≡ true = ground (arith, size) in
    rw (not_first, last, there, room) refl

-- The bytes that end a line that has begun.
dump_bytes-fill :
    (vs : List ℕ) (offset v : ℕ) (out xs old : List ℕ)
    → 0 < length xs
    → length xs + length vs ≡ 15
    → length old ≡ suc (length vs)
    → offset + 16 < 2 ^ 31
    → dump_bytes (begun offset out xs old) (v ∷ vs)
      ≡ ok (
          begun
            (offset + 16)
            (out ++ print_bytes (v ∷ vs) ++ bar ++ print_ascii (xs ++ (v ∷ vs)) ++ bar)
            []
            (xs ++ (v ∷ vs)))
unfolding dump_bytes
dump_bytes-fill vs offset v out xs [] pos size room fits = absurd (omega arith)
dump_bytes-fill [] offset v out xs (o ∷ []) pos size room fits =
    rw (dump_byte-last offset o v out xs (omega arith) fits) refl
dump_bytes-fill [] offset v out xs (o ∷ p ∷ old) pos size room fits = absurd (omega arith)
dump_bytes-fill (w ∷ vs) offset v out xs (o ∷ old) pos size room fits =
    rw (dump_byte-inside offset o v out xs old pos (omega arith)) (
      dump_bytes-fill vs offset w (out ++ print_byte v) (xs ++ (v ∷ [])) old
        (omega (arith, length-snoc xs v)) (omega (arith, length-snoc xs v)) (omega arith) fits
      ∙ (rw
          (
            append_assoc xs (v ∷ []) (w ∷ vs),
            append_assoc out (print_byte v) (print_bytes (w ∷ vs)),
          )
          refl))

bind_assoc :
    (o : Outcome Dump) (f g : Dump → Outcome Dump) → (o >>= λ d. (f d >>= g)) ≡ (o >>= f) >>= g
bind_assoc (ok d) f g = refl
bind_assoc panic f g = refl
bind_assoc fault f g = refl
bind_assoc out_of_fuel f g = refl

dump_bytes-append :
    (xs ys : List ℕ) (d : Dump) → dump_bytes d (xs ++ ys) ≡ dump_bytes d xs >>= λ d. dump_bytes d ys
unfolding dump_bytes
dump_bytes-append [] ys d = refl
dump_bytes-append (x ∷ xs) ys d =
    ap (λ f. dump_byte d x >>= f) (fun_ext (dump_bytes-append xs ys))
    ∙ bind_assoc (dump_byte d x) (λ d. dump_bytes d xs) (λ d. dump_bytes d ys)

dump_bytes-whole :
    (v : ℕ) (vs : List ℕ) (offset : ℕ) (out old : List ℕ)
    → length vs ≡ 15
    → length old ≡ 16
    → offset + 16 < 2 ^ 31
    → dump_bytes (begun offset out [] old) (v ∷ vs)
      ≡ ok (begun (offset + 16) (out ++ full_line offset (v ∷ vs)) [] (v ∷ vs))
unfolding dump_bytes
dump_bytes-whole v [] offset out old size room fits = absurd (omega arith)
dump_bytes-whole v vs offset out [] size room fits = absurd (omega arith)
dump_bytes-whole v (w ∷ vs) offset out (o ∷ old) size room fits =
    rw (dump_byte-first offset o v out old) (
      dump_bytes-fill vs offset w (out ++ print_offset offset ++ print_byte v) (v ∷ []) old
        (omega arith) (omega arith) (omega arith) fits
      ∙ (simp append_assoc refl))

-- A full line.
dump_bytes-line :
    (v : ℕ) (vs rest : List ℕ) (offset : ℕ) (out old : List ℕ)
    → length vs ≡ 15
    → length old ≡ 16
    → offset + 16 < 2 ^ 31
    → dump_bytes (begun offset out [] old) ((v ∷ vs) ++ rest)
      ≡ dump_bytes (begun (offset + 16) (out ++ full_line offset (v ∷ vs)) [] (v ∷ vs)) rest
dump_bytes-line v vs rest offset out old size room fits =
    dump_bytes-append (v ∷ vs) rest (begun offset out [] old)
    ∙ (rw (dump_bytes-whole v vs offset out old size room fits) refl)

-- The bytes that do not fill a line.
dump_bytes-rest :
    (vs : List ℕ) (offset : ℕ) (out xs old : List ℕ)
    → 0 < length xs
    → length xs + length vs < 16
    → length old ≡ 16 - length xs
    → (left : List ℕ) × (dump_bytes (begun offset out xs old) vs
        ≡ ok (begun offset (out ++ print_bytes vs) (xs ++ vs) left))
unfolding dump_bytes
dump_bytes-rest [] offset out xs old pos size room = (old, rw (append-nil out, append-nil xs) refl)
dump_bytes-rest (v ∷ vs) offset out xs [] pos size room = absurd (omega arith)
dump_bytes-rest (v ∷ vs) offset out xs (o ∷ old) pos size room =
    let rest =
      dump_bytes-rest vs offset (out ++ print_byte v) (xs ++ (v ∷ [])) old
        (omega (arith, length-snoc xs v)) (omega (arith, length-snoc xs v))
        (omega (arith, length-snoc xs v)) in
    (
      rest.0,
      rw (dump_byte-inside offset o v out xs old pos (omega arith)) (
          rest.1
          ∙ (rw (append_assoc xs (v ∷ []) vs, append_assoc out (print_byte v) (print_bytes vs))
              refl)),
    )

take_all : (xs ys : List ℕ) → take (length xs) (xs ++ ys) ≡ xs
take_all [] ys = refl
take_all (x ∷ xs) ys = ap (λ l. x ∷ l) (take_all xs ys)

-- The lines of what is left, when a line is due.
dump_bytes-lines :
    (chunks : List (List ℕ)) (rest : List ℕ) (offset : ℕ) (out old : List ℕ)
    → All (λ chunk. length chunk ≡ 16) chunks
    → length rest < 16
    → length old ≡ 16
    → offset + 16 * length chunks < 2 ^ 31
    → (dump_bytes (begun offset out [] old) (concat chunks ++ rest) >>= λ d. ok (finish_dump d))
      ≡ ok (out ++ lines offset chunks rest)
unfolding dump_bytes finish_dump
dump_bytes-lines [] [] offset out old sizes short room fits = ap ok (sym (append-nil out))
dump_bytes-lines [] (v ∷ vs) offset out [] sizes short room fits = absurd (omega arith)
dump_bytes-lines [] (v ∷ vs) offset out (o ∷ old) sizes short room fits =
    let r =
      dump_bytes-rest vs offset (out ++ print_offset offset ++ print_byte v) (v ∷ []) old
        (omega arith) (omega arith) (omega arith) in
    let some_bytes : (suc (length vs) == 0) ≡ false = ground arith in
    rw (dump_byte-first offset o v out old, r.1, take_all vs r.0, some_bytes)
      (simp append_assoc refl)
dump_bytes-lines ([] ∷ chunks) rest offset out old sizes short room fits =
    absurd (omega (arith, sizes.0))
dump_bytes-lines ((v ∷ vs) ∷ chunks) rest offset out old sizes short room fits =
    ap (λ bytes. dump_bytes (begun offset out [] old) bytes >>= finish)
      (append_assoc (v ∷ vs) (concat chunks) rest)
    ∙ ap (λ o. o >>= finish)
        (dump_bytes-line v vs (concat chunks ++ rest) offset out old (omega (arith, sizes.0)) room
          (omega arith))
    ∙ dump_bytes-lines chunks rest (offset + 16) (out ++ full_line offset (v ∷ vs)) (v ∷ vs) sizes.1
        short sizes.0 (omega arith)
    ∙ ap ok (append_assoc out (full_line offset (v ∷ vs)) (lines (offset + 16) chunks rest))
  where
    finish : Dump → Outcome (List ℕ)
    finish d = ok (finish_dump d)

-- Below 2 ^ 31 bytes, hexdump_bytes prints one full line for each 16 bytes, with its offset, and
-- then, if bytes are left, one line that is padded to the width of a full one, and it does not
-- panic.
pub hexdump_bytes-lines :
    (chunks : List (List ℕ)) (rest : List ℕ)
    → All (λ chunk. length chunk ≡ 16) chunks
    → length rest < 16
    → 16 * length chunks < 2 ^ 31
    → hexdump_bytes (concat chunks ++ rest) ≡ ok (lines 0 chunks rest)
unfolding hexdump_bytes
hexdump_bytes-lines chunks rest sizes short fits =
    dump_bytes-lines chunks rest 0 [] (replicate 16 0x8) sizes short refl (omega (arith, fits))
