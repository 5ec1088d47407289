-- ===== src/Allocator/UnitTests/Overlap/Blocks.antt =====
-- What the test holds: its blocks, the bytes in them, and a new block among those of before.
use osdev_hikalium.Prelude.{
  ℕ, ◌+◌, ◌*◌, ◌≤◌, ◌<◌, ◌≡◌, ◌≢◌, ◌-◌, refl, ap, ◌∙◌, Option, none, some, List, [], ◌∷◌, ◌++◌, All,
  All-append, All-append_left, All-append_right, Any, Any-imp, length, arith,
}
use osdev_hikalium.Prelude.Usize.{Outcome, ok}
use osdev_hikalium.Allocator.Memory.{Memory}
use osdev_hikalium.Allocator.FirstFit.{Layout, alloc_with_options}
use osdev_hikalium.Allocator.Regions.{Region, Apart, IsHeap}
use osdev_hikalium.Allocator.Chain.{Chain}
use osdev_hikalium.Allocator.Layouts.{IsLayout, Raises}
use osdev_hikalium.Allocator.Alloc.{Answered, alloc_with_options-Allocates}
use osdev_hikalium.Allocator.Room.{HasRoom, demand, Serves-HasRoom, Serves-length, refuses_none}
use osdev_hikalium.Allocator.Client.{Block, area, Separate, Serving, IsSafe}
use osdev_hikalium.Allocator.Client.Grant.{Granted-IsSafe}
use osdev_hikalium.Allocator.UnitTests.Overlap.{Ram, write_bytes, after_call}
use osdev_hikalium.Allocator.UnitTests.Overlap.Writes.{
  NoHeader, after_call-bytes, bytes_elsewhere, headers_gone, write_bytes-Chain, served-Far,
  served-OutsideFree,
}
use osdev_hikalium.Allocator.Walk.{OutsideFree}

-- A block, and the byte that it is filled with.
pub record Filled : Type 0 where
  pub block : Block
  pub value : Option ℕ

abbrev pub blocks : List Filled → List Block
blocks [] = []
blocks (f ∷ fs) = f.block ∷ blocks fs

pub blocks-append : (fs gs : List Filled) → blocks (fs ++ gs) ≡ blocks fs ++ blocks gs
blocks-append [] gs = refl
blocks-append (f ∷ fs) gs = rw (blocks-append fs gs) refl

-- The bytes of a block are its value, and none of them lies in a header.
abbrev pub Shows : Ram → Block → Option ℕ → Type 0
Shows s b none = Unit
Shows s b (some v) =
    (k : ℕ)
    → k < b.layout.size
    → (s.bytes (b.pointer + k) ≡ some v) × NoHeader s.headers (b.pointer + k)

pub record IsLive (first : Option ℕ) (fuel n requests : ℕ) (fs : List Filled) (s : Ram)
    : Type 0 where
  pub safe : IsSafe first (record { memory = s.headers; blocks = blocks fs })
  pub room : Any (HasRoom n) safe.regions
  pub short : length safe.regions + 2 * requests < fuel
  pub filled : All (λ f. Shows s f.block f.value) fs

-- The order of the blocks does not matter.
pub All-insert :
    (P : Block → Type 0) (xs ys : List Block) (b : Block)
    → P b
    → All P (xs ++ ys)
    → All P (xs ++ b ∷ ys)
All-insert P xs ys b h k =
    All-append P xs (b ∷ ys) (All-append_left P xs ys k) (h, All-append_right P xs ys k)

pub Separate-insert :
    (xs ys : List Block) (b : Block)
    → All (λ c. Apart (area b) (area c)) (xs ++ ys)
    → Separate (xs ++ ys)
    → Separate (xs ++ b ∷ ys)
Separate-insert [] ys b apart h = (apart, h)
Separate-insert (c ∷ xs) ys b apart h = (
  All-insert (λ x. Apart (area c) (area x)) xs ys b (ground (arith, apart.0)) h.0,
  Separate-insert xs ys b apart.1 h.1,
)

module _ (first : Option ℕ) (m : Memory) (bs cs : List Block) (e : bs ≡ cs) where
  -- The same blocks, written in another way.
  pub resafe :
      (safe : IsSafe first (record { memory = m; blocks = bs }))
      → (same : IsSafe first (record { memory = m; blocks = cs })) × (same.regions ≡ safe.regions)
  resafe safe = (
    record {
      regions = safe.regions;
      represents = safe.represents;
      heap = safe.heap;
      served = rw (← e) safe.served;
      separate = rw (← e) safe.separate;
      aligned = rw (← e) safe.aligned;
    },
    refl,
  )

-- `out` is the normal return of a new block, apart from those of `bs`.
pub record Places (first : Option ℕ) (fuel n requests : ℕ) (layout : Layout) (m : Memory)
    (rs : List Region) (bs : List Block) (out : Outcome (Option ℕ × Memory)) : Type 0 where
  pub pointer : ℕ
  pub memory : Memory
  pub returns : out ≡ ok (some pointer, memory)
  pub above : 32 ≤ pointer
  pub safe :
      IsSafe first
        (record { memory = memory; blocks = record { pointer = pointer; layout = layout } ∷ bs })
  pub room : Any (HasRoom n) safe.regions
  pub short : length safe.regions + 2 * requests < fuel
  pub elsewhere : (q : ℕ) → OutsideFree q rs → memory q ≡ m q

module _ (first : Option ℕ) (fuel n requests : ℕ) (layout : Layout) (j : ℕ) (m m' : Memory)
    (bs : List Block) (raised : Raises layout j)
    (safe : IsSafe first (record { memory = m; blocks = bs })) (rs' : List Region)
    (heap : IsHeap rs') (c : Chain m' first rs')
    (room : Any (HasRoom (n + demand layout)) safe.regions)
    (short : length safe.regions + 2 * (requests + 1) < fuel)
    (elsewhere : (q : ℕ) → OutsideFree q safe.regions → m' q ≡ m q) where
  answer-Places :
      (result : Option ℕ)
      → Answered layout raised.size raised.exponent safe.regions result rs'
      → Places first fuel n requests layout m safe.regions bs (ok (result, m'))
  answer-Places none a = absurd (
      refuses_none raised.size raised.exponent _ safe.regions
        (omega (arith, raised.tight, raised.finest)) a.1 room)
  answer-Places (some p) g =
      let next =
        Granted-IsSafe first layout raised.size raised.exponent m safe.regions bs p rs' m' safe g c
          heap in
      record {
        pointer = p;
        memory = m';
        returns = refl;
        elsewhere = elsewhere;
        above = omega (arith, g.serves.placed);
        safe = next.0;
        room = rw next.1 (
            Serves-HasRoom raised.size raised.exponent n p safe.regions rs' g.serves (
              Any-imp safe.regions (λ x r. (r.0, omega (arith, r, raised.tight, raised.finest)))
                room));
        short = omega (
          arith,
          ap length next.1,
          Serves-length raised.size raised.exponent n p safe.regions rs' g.serves,
        );
      }

pub alloc-Places :
    (first : Option ℕ) (fuel n requests : ℕ) (layout : Layout) (j : ℕ) (m : Memory)
    (bs : List Block) (safe : IsSafe first (record { memory = m; blocks = bs }))
    → IsLayout layout j
    → Any (HasRoom (n + demand layout)) safe.regions
    → length safe.regions + 2 * (requests + 1) < fuel
    → Places first fuel n requests layout m safe.regions bs (alloc_with_options fuel first layout m)
alloc-Places first fuel n requests layout j m bs safe valid room short =
    let a =
      alloc_with_options-Allocates layout j fuel m first safe.regions valid safe.heap
        safe.represents (omega (arith, short)) in
    rw a.returns (
      answer-Places first fuel n requests layout j m a.memory bs a.raised safe a.regions a.heap
        a.represents room short a.elsewhere a.result a.answered)

-- Bytes of a block b change nothing in a block apart from it.
Shows-write :
    (b c : Block) (v : ℕ) (s : Ram) (w : Option ℕ)
    → 32 ≤ b.pointer
    → Apart (area b) (area c)
    → Shows s c w
    → Shows (write_bytes b.pointer b.layout.size v s) c w
Shows-write b c v s none low apart h = tt
Shows-write b c v s (some w) low apart h = λ k lt. (
  bytes_elsewhere b.pointer b.layout.size v s (c.pointer + k)
        (λ inside. omega (arith, apart, inside, low, lt))
      ∙ (h k lt).0,
  λ q le near. headers_gone b.pointer b.layout.size v s q ((h k lt).1 q le near),
)

pub All-Shows-write :
    (b : Block) (v : ℕ) (s : Ram) (fs : List Filled)
    → 32 ≤ b.pointer
    → All (λ c. Apart (area b) (area c)) (blocks fs)
    → All (λ f. Shows s f.block f.value) fs
    → All (λ f. Shows (write_bytes b.pointer b.layout.size v s) f.block f.value) fs
All-Shows-write b v s [] low apart h = tt
All-Shows-write b v s (f ∷ fs) low apart h =
    (Shows-write b f.block v s f.value low apart.0 h.0, All-Shows-write b v s fs low apart.1 h.1)

-- A call of the allocator that leaves the memory over a block as it is.
Shows-after_call :
    (c : Block) (m : Memory) (s : Ram) (w : Option ℕ)
    → ((k q : ℕ)
        → k < c.layout.size
        → q ≤ c.pointer + k
        → c.pointer + k < q + 32
        → m q ≡ s.headers q)
    → Shows s c w
    → Shows (after_call m s) c w
Shows-after_call c m s none same h = tt
Shows-after_call c m s (some w) same h = λ k lt.
    let bare : NoHeader m (c.pointer + k) =
      λ q le near. same k q lt le near ∙ (h k lt).1 q le near in
    (after_call-bytes m s (c.pointer + k) bare ∙ (h k lt).0, bare)

pub All-Shows-alloc :
    (rs : List Region) (m : Memory) (s : Ram) (fs : List Filled)
    → IsHeap rs
    → ((q : ℕ) → OutsideFree q rs → m q ≡ s.headers q)
    → All (λ b. Any (Serving b) rs) (blocks fs)
    → All (λ f. Shows s f.block f.value) fs
    → All (λ f. Shows (after_call m s) f.block f.value) fs
All-Shows-alloc rs m s [] heap same served h = tt
All-Shows-alloc rs m s (f ∷ fs) heap same served h = (
  Shows-after_call f.block m s f.value
      (λ k q lt le near. same q (served-OutsideFree f.block rs k q heap served.0 lt le near)) h.0,
  All-Shows-alloc rs m s fs heap same served.1 h.1,
)

pub All-Shows-dealloc :
    (b : Block) (m : Memory) (s : Ram) (fs : List Filled)
    → 32 ≤ b.pointer
    → ((q : ℕ) → q ≢ b.pointer - 32 → m q ≡ s.headers q)
    → All (λ c. Apart (area b) (area c)) (blocks fs)
    → All (λ c. 32 ≤ c.pointer) (blocks fs)
    → All (λ f. Shows s f.block f.value) fs
    → All (λ f. Shows (after_call m s) f.block f.value) fs
All-Shows-dealloc b m s [] low same apart above h = tt
All-Shows-dealloc b m s (f ∷ fs) low same apart above h = (
  Shows-after_call f.block m s f.value
      (λ k q lt le near. same q (λ e. omega (arith, apart.0, above.0, e, lt, le, near, low))) h.0,
  All-Shows-dealloc b m s fs low same apart.1 above.1 h.1,
)

-- Writing into a block keeps the heap.
pub write_bytes-IsSafe :
    (first : Option ℕ) (b : Block) (bs : List Block) (v : ℕ) (s : Ram)
    (safe : IsSafe first (record { memory = s.headers; blocks = b ∷ bs }))
    → (after : IsSafe first
        (record { memory = (write_bytes b.pointer b.layout.size v s).headers; blocks = b ∷ bs }))
      × (after.regions ≡ safe.regions)
write_bytes-IsSafe first b bs v s safe = (
  record {
    regions = safe.regions;
    represents =
        write_bytes-Chain b.pointer b.layout.size v s first safe.regions
          (served-Far b safe.regions safe.heap safe.served.0) safe.represents;
    heap = safe.heap;
    served = safe.served;
    separate = safe.separate;
    aligned = safe.aligned;
  },
  refl,
)
