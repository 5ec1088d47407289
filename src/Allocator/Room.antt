-- ===== src/Allocator/Room.antt =====
-- A free region that is large enough makes `alloc_with_options` succeed, and how much of it is left.
use osdev_hikalium.Prelude.{
  ℕ, ◌+◌, ◌-◌, ◌*◌, ◌%◌, ◌^◌, ◌≤◌, ◌<◌, ◌≡◌, refl, ap, inl, inr, true, false, Option, none, some,
  List, ◌∷◌, ◌++◌, All, Any, Any-imp, Any-append_left, Any-append_right, Any-append-cases, Any-All,
  length, length-append, arith,
}
use osdev_hikalium.Prelude.Usize.{Outcome, ok}
use osdev_hikalium.Allocator.Memory.{Memory}
use osdev_hikalium.Allocator.FirstFit.{Layout, alloc_with_options, dealloc}
use osdev_hikalium.Allocator.Regions.{Region, region, IsHeap, can_hold, split, padding_of}
use osdev_hikalium.Allocator.Chain.{Chain}
use osdev_hikalium.Allocator.Layouts.{IsLayout, Raises}
use osdev_hikalium.Allocator.Grants.{Serves, front, back, around}
use osdev_hikalium.Allocator.Alloc.{Granted, Answered, alloc_with_options-Allocates}
use osdev_hikalium.Allocator.Dealloc.{dealloc-Frees}

-- A free region of at least n bytes.
abbrev pub HasRoom : ℕ → Region → Type 0
HasRoom n r = (r.is_allocated ≡ false) × (n ≤ r.size)

-- More than what a layout can take from a region, with the headers and the rounding.
abbrev pub demand : Layout → ℕ
demand layout = 2 * layout.size + layout.align + 128

module _ (size k n addr : ℕ) (rs rs' : List Region) (s : Serves size k rs addr rs') where
  weaken : (xs : List Region) → Any (HasRoom (n + size + 2 ^ k + 64)) xs → Any (HasRoom n) xs
  weaken xs = Any-imp xs λ x c. (c.0, omega (arith, c.1))

  -- What is left of the room after a request was served.
  pub Serves-HasRoom : Any (HasRoom (n + size + 2 ^ k + 64)) rs → Any (HasRoom n) rs'
  Serves-HasRoom h =
      rw s.becomes
        (elim (Any-append-cases (HasRoom _) s.before (s.chosen ∷ s.after) (rw s.was at h)) [
          | inl l ↦ Any-append_left (HasRoom n) s.before _ (weaken s.before l)
          | inr (inl c) ↦
              Any-append_right (HasRoom n) s.before _
                (inl (refl, omega (arith, c, s.highest, s.placed)))
          | inr (inr r) ↦
              Any-append_right (HasRoom n) s.before _
                (Any-append_right (HasRoom n) (split s.chosen addr size) s.after (weaken s.after r))
        ])

  length-padding : length (padding_of s.chosen (addr + size)) ≤ 1
  length-padding = ground arith

  pub Serves-length : length rs' ≤ length rs + 2
  Serves-length =
      rw (s.becomes, s.was, length-append s.before, length-append s.before)
        (omega (arith, length-padding, length-append (padding_of s.chosen (addr + size)) s.after))

pub refuses_none :
    (size k n : ℕ) (rs : List Region)
    → size + 64 + 2 ^ k ≤ n
    → All (λ r. can_hold r size (2 ^ k) ≡ false) rs
    → ¬ Any (HasRoom n) rs
refuses_none size k n rs fits none_fit room =
    Any-All rs (λ r refused c. ground (arith, refused, c.0, c.1)) none_fit room

-- A memory whose heap has a free region of n bytes, and fuel for more requests.
pub record IsReady (first : Option ℕ) (fuel n requests : ℕ) (m : Memory) : Type 0 where
  pub regions : List Region
  pub represents : Chain m first regions
  pub heap : IsHeap regions
  pub room : Any (HasRoom n) regions
  pub short : length regions + 2 * requests < fuel

-- Ready for more is ready for less.
pub IsReady_less :
    {first : Option ℕ} {fuel : ℕ} {m : Memory} (n n' requests requests' : ℕ)
    → n ≤ n'
    → requests ≤ requests'
    → IsReady first fuel n' requests' m
    → IsReady first fuel n requests m
IsReady_less n n' requests requests' h k ready = record {
  regions = ready.regions;
  represents = ready.represents;
  heap = ready.heap;
  room = Any-imp ready.regions (λ r c. (c.0, omega (arith, c.1))) ready.room;
  short = omega (arith, ready.short);
}

-- `out` is a normal return of memory that is ready.
pub record FreesTo (first : Option ℕ) (fuel n requests : ℕ) (out : Outcome (Unit {0} × Memory))
    : Type 0 where
  pub memory : Memory
  pub returns : out ≡ ok (tt, memory)
  pub ready : IsReady first fuel n requests memory

-- `out` is the normal return of a pointer that is not null and aligned, and the memory is ready after it, and
-- again after the pointer was given back.
pub record Gets (first : Option ℕ) (fuel n requests : ℕ) (layout : Layout)
    (out : Outcome (Option ℕ × Memory)) : Type 0 where
  pub pointer : ℕ
  pub memory : Memory
  pub returns : out ≡ ok (some pointer, memory)
  pub above : 32 ≤ pointer
  pub aligned : pointer % layout.align ≡ 0
  pub ready : IsReady first fuel n requests memory
  pub frees : FreesTo first fuel n requests (dealloc pointer memory)

-- The room is not in a region that is in use.
pub HasRoom-mark :
    (n a size : ℕ) (xs ys : List Region)
    → Any (HasRoom n) (xs ++ region a size true ∷ ys)
    → Any (HasRoom n) (xs ++ region a size false ∷ ys)
HasRoom-mark n a size xs ys room = elim (Any-append-cases (HasRoom n) xs _ room) [
  | inl l ↦ Any-append_left (HasRoom n) xs _ l
  | inr (inl c) ↦ absurd (cc c.0)
  | inr (inr r) ↦ Any-append_right (HasRoom n) xs _ (inr r)
]

pub length_swap :
    (xs ys : List Region) (a b : Region) → length (xs ++ a ∷ ys) ≡ length (xs ++ b ∷ ys)
length_swap xs ys a b = omega (arith, length-append xs (a ∷ ys), length-append xs (b ∷ ys))

module _ (first : Option ℕ) (fuel n requests : ℕ) (layout : Layout) (j : ℕ)
    (raised : Raises layout j) (m : Memory) (rs rs' : List Region) (p : ℕ)
    (g : Granted layout raised.size raised.exponent rs p rs') (heap : IsHeap rs')
    (c : Chain m first rs') (room : Any (HasRoom n) rs')
    (short : length rs' + 2 * requests < fuel) where
  open g.serves use {placed}

  dealloc-FreesTo : FreesTo first fuel n requests (dealloc p m)
  dealloc-FreesTo =
      let done =
        dealloc-Frees m first (front g.serves) (back g.serves) p (raised.size + 32)
          (omega (arith, placed)) (rw (around g.serves) at heap) (rw (around g.serves) at c) in
      record {
        memory = done.memory;
        returns = done.returns;
        ready = record {
          regions = (front g.serves) ++ region (p - 32) (raised.size + 32) false ∷ (back g.serves);
          represents = done.represents;
          heap = done.heap;
          room =
              HasRoom-mark n (p - 32) (raised.size + 32) (front g.serves) (back g.serves)
                (rw (around g.serves) at room);
          short = omega (
            arith,
            short,
            ap length (around g.serves),
            length_swap (front g.serves) (back g.serves) (region (p - 32) (raised.size + 32) true)
                (region (p - 32) (raised.size + 32) false),
          );
        };
      }

module _ (first : Option ℕ) (fuel n requests : ℕ) (layout : Layout) (j : ℕ)
    (raised : Raises layout j) (m m' : Memory) (rs rs' : List Region) (heap : IsHeap rs')
    (c : Chain m' first rs') (room : Any (HasRoom (n + demand layout)) rs)
    (short : length rs + 2 * (requests + 1) < fuel) where
  answer-Gets :
      (result : Option ℕ)
      → Answered layout raised.size raised.exponent rs result rs'
      → Gets first fuel n requests layout (ok (result, m'))
  answer-Gets none a = absurd (
      refuses_none raised.size raised.exponent _ rs (omega (arith, raised.tight, raised.finest)) a.1
        room)
  answer-Gets (some p) g =
      let left =
        Serves-HasRoom raised.size raised.exponent n p rs rs' g.serves
          (Any-imp rs (λ x r. (r.0, omega (arith, r, raised.tight, raised.finest))) room) in
      let bounded : length rs' + 2 * requests < fuel =
        omega (arith, Serves-length raised.size raised.exponent n p rs rs' g.serves) in
      record {
        pointer = p;
        memory = m';
        returns = refl;
        above = omega (arith, g.serves.placed);
        aligned = g.aligned;
        ready = record { regions = rs'; represents = c; heap = heap; room = left; short = bounded };
        frees =
            dealloc-FreesTo first fuel n requests layout j raised m' rs rs' p g heap c left bounded;
      }

-- On a heap with a free region of n bytes more than twice the size of a valid layout, its
-- alignment and 128, with fuel for so many requests and one more, alloc_with_options returns a
-- pointer that is not null and aligned, and leaves a free region of n bytes and fuel for the other
-- requests, also after the pointer was given back to dealloc.
pub alloc_with_options-Gets :
    (layout : Layout) (j fuel n requests : ℕ) (m : Memory) (first : Option ℕ)
    → IsLayout layout j
    → IsReady first fuel (n + demand layout) (requests + 1) m
    → Gets first fuel n requests layout (alloc_with_options fuel first layout m)
alloc_with_options-Gets layout j fuel n requests m first valid ready =
    let a =
      alloc_with_options-Allocates layout j fuel m first ready.regions valid ready.heap
        ready.represents (omega (arith, ready.short)) in
    rw a.returns (
      answer-Gets first fuel n requests layout j a.raised m a.memory ready.regions a.regions a.heap
        a.represents ready.room ready.short a.result a.answered)
