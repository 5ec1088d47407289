-- ===== src/Allocator/UnitTests/Overlap/Writes.antt =====
-- What the writes of the test and the calls of the allocator do to the memory that they share.
use osdev_hikalium.Prelude.{
  ℕ, zero, suc, ◌+◌, ◌-◌, ◌≤◌, ◌<◌, ◌≡◌, ◌⊎◌, inl, inr, refl, ◌∙◌, Bool, false, true, leb,
  if◌then◌else◌, Option, none, some, List, [], ◌∷◌, All, Any, Any-All, arith,
}
use osdev_hikalium.Allocator.Memory.{Memory}
use osdev_hikalium.Allocator.Regions.{Region, IsHeap, Apart}
use osdev_hikalium.Allocator.Chain.{Chain}
use osdev_hikalium.Allocator.Walk.{OutsideFree}
use osdev_hikalium.Allocator.Client.{Block, Serving}
use osdev_hikalium.Allocator.UnitTests.Overlap.{
  Ram, is_header, covered, after_call, write_byte, write_bytes,
}

-- No header lies over an address.
abbrev pub NoHeader : Memory → ℕ → Type 0
NoHeader m a = (q : ℕ) → q ≤ a → a < q + 32 → m q ≡ none

covered-NoHeader : (m : Memory) (a n : ℕ) → NoHeader m a → n ≤ 32 → covered m a n ≡ false
unfolding covered
covered-NoHeader m a zero h le = refl
covered-NoHeader m a (suc n) h le =
    ground (arith, covered-NoHeader m a n h (omega arith), far (leb n a) refl)
  where
    far : (b : Bool) → leb n a ≡ b → (if b then is_header (m (a - n)) else false) ≡ false
    far false e = refl
    far true e = rw (h (a - n) (omega arith) (ground (arith, e))) refl

-- A byte that no header lies over stays.
pub after_call-bytes :
    (m : Memory) (s : Ram) (a : ℕ) → NoHeader m a → (after_call m s).bytes a ≡ s.bytes a
after_call-bytes m s a h = rw (covered-NoHeader m a 32 h (omega arith)) refl

pub bytes_elsewhere :
    (p n v : ℕ) (s : Ram) (a : ℕ)
    → ¬ ((p ≤ a) × (a < p + n))
    → (write_bytes p n v s).bytes a ≡ s.bytes a
bytes_elsewhere p zero v s a far = refl
bytes_elsewhere p (suc n) v s a far =
    bytes_elsewhere (p + 1) n v (write_byte p v s) a (λ h. far (omega arith)) ∙ ground (arith, far)

pub bytes_there :
    (p n v : ℕ) (s : Ram) (k : ℕ) → k < n → (write_bytes p n v s).bytes (p + k) ≡ some v
bytes_there p zero v s k h = elim h [ ]
bytes_there p (suc n) v s zero h =
    bytes_elsewhere (p + 1) n v (write_byte p v s) (p + 0) (λ h. omega arith) ∙ ground arith
bytes_there p (suc n) v s (suc k) h =
    let e : p + suc k ≡ p + 1 + k = omega arith in
    rw e (bytes_there (p + 1) n v (write_byte p v s) k (omega arith))

-- Writes make no header.
pub headers_gone :
    (p n v : ℕ) (s : Ram) (q : ℕ) → s.headers q ≡ none → (write_bytes p n v s).headers q ≡ none
headers_gone p zero v s q h = h
headers_gone p (suc n) v s q h = headers_gone (p + 1) n v (write_byte p v s) q (ground (arith, h))

pub headers_there :
    (p n v : ℕ) (s : Ram) (k : ℕ) → k < n → NoHeader (write_bytes p n v s).headers (p + k)
headers_there p zero v s k h = elim h [ ]
headers_there p (suc n) v s zero h =
    λ q le lt. headers_gone (p + 1) n v (write_byte p v s) q (ground (arith, le, lt))
headers_there p (suc n) v s (suc k) h =
    let e : p + suc k ≡ p + 1 + k = omega arith in
    rw e (headers_there (p + 1) n v (write_byte p v s) k (omega arith))

-- A header apart from the bytes stays.
pub headers_elsewhere :
    (p n v : ℕ) (s : Ram) (q : ℕ)
    → (q + 32 ≤ p) ⊎ (p + n ≤ q)
    → (write_bytes p n v s).headers q ≡ s.headers q
headers_elsewhere p zero v s q far = refl
headers_elsewhere p (suc n) v s q far =
    headers_elsewhere (p + 1) n v (write_byte p v s) q (omega (arith, far)) ∙ ground (arith, far)

abbrev pub Far : ℕ → ℕ → Region → Type 0
Far p n r = (r.start + 32 ≤ p) ⊎ (p + n ≤ r.start)

pub write_bytes-Chain :
    (p n v : ℕ) (s : Ram) (first : Option ℕ) (rs : List Region)
    → All (Far p n) rs
    → Chain s.headers first rs
    → Chain (write_bytes p n v s).headers first rs
write_bytes-Chain p n v s first [] far c = c
write_bytes-Chain p n v s first (r ∷ rs) far c = (
  c.0,
  (
    c.1.0,
    headers_elsewhere p n v s r.start far.0 ∙ c.1.1,
    write_bytes-Chain p n v s c.1.0 rs far.1 c.1.2,
  ),
)

-- The headers of the heap lie apart from the bytes of a block that is served.
pub served-Far :
    (b : Block) (rs : List Region)
    → IsHeap rs
    → Any (Serving b) rs
    → All (Far b.pointer b.layout.size) rs
served-Far b [] heap h = tt
served-Far b (r ∷ rs) heap (inl serving) = (inl (omega (arith, serving)), rest rs heap.1 heap.2)
  where
    rest : (ss : List Region) → All (Apart r) ss → IsHeap ss → All (Far b.pointer b.layout.size) ss
    rest [] apart heap = tt
    rest (t ∷ ss) apart heap = (
      ground (arith, apart.0, serving, heap.0.inhabited, heap.0.size_aligned),
      rest ss apart.1 heap.2,
    )
served-Far b (r ∷ rs) heap (inr later) = (
  Any-All rs
      (λ t apart serving. ground (arith, apart, serving, heap.0.inhabited, heap.0.size_aligned))
      heap.1 later,
  served-Far b rs heap.2 later,
)

-- An address right over which a byte of a served block lies is in no free region.
pub served-OutsideFree :
    (b : Block) (rs : List Region) (k q : ℕ)
    → IsHeap rs
    → Any (Serving b) rs
    → k < b.layout.size
    → q ≤ b.pointer + k
    → b.pointer + k < q + 32
    → OutsideFree q rs
served-OutsideFree b [] k q heap h lt le near = tt
served-OutsideFree b (r ∷ rs) k q heap (inl serving) lt le near = (inl serving.1, rest rs heap.1)
  where
    rest : (ss : List Region) → All (Apart r) ss → OutsideFree q ss
    rest [] apart = tt
    rest (t ∷ ss) apart = (inr (omega (arith, apart.0, serving, lt, le, near)), rest ss apart.1)
served-OutsideFree b (r ∷ rs) k q heap (inr later) lt le near = (
  inr (Any-All rs (λ t apart serving. omega (arith, apart, serving, lt, le, near)) heap.1 later),
  served-OutsideFree b rs k q heap.2 later lt le near,
)
