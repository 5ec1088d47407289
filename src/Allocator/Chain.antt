-- ===== src/Allocator/Chain.antt =====
-- How the linked headers in memory represent a list of regions.
use osdev_hikalium.Prelude.{
  ℕ, ◌≤◌, ◌<◌, ◌≡◌, ◌⊎◌, ◌∙◌, Bool, Option, none, some, List, [], ◌∷◌, All, arith,
}
use osdev_hikalium.Allocator.Memory.{Header, Memory}
use osdev_hikalium.Allocator.Regions.{Region, end_of, IsSound, Apart, IsHeap}

abbrev pub header : Option ℕ → ℕ → Bool → Header
header next n b = record { next_header = next; size = n; is_allocated = b; reserved = 0 }

-- From `first` the links lead through the headers of `rs`, in order, to the end.
abbrev pub Chain : Memory → Option ℕ → List Region → Type 0
Chain m first [] = first ≡ none
Chain m first (r ∷ rs) =
    (first ≡ some r.start)
    × ((next : Option ℕ) × (m r.start ≡ some (header next r.size r.is_allocated)) × Chain m next rs)

-- `m'` agrees with `m` outside the bytes from `low` to `high`.
abbrev pub SameOutside : ℕ → ℕ → Memory → Memory → Type 0
SameOutside low high m m' = (q : ℕ) → (q < low) ⊎ (high ≤ q) → m' q ≡ m q

-- A change inside one region leaves the chain of regions that are apart from it.
pub Chain-frame :
    (m m' : Memory) (r : Region) (first : Option ℕ) (rs : List Region)
    → SameOutside r.start (end_of r) m m'
    → All (Apart r) rs
    → IsHeap rs
    → Chain m first rs
    → Chain m' first rs
Chain-frame m m' r first [] same apart heap c = c
Chain-frame m m' r first (s ∷ rs) same apart heap c = (
  c.0,
  (
    c.1.0,
    same s.start (outside apart.0 heap.0) ∙ c.1.1,
    Chain-frame m m' r c.1.0 rs same apart.1 heap.2 c.1.2,
  ),
)
  where
    outside : Apart r s → IsSound s → (s.start < r.start) ⊎ (end_of r ≤ s.start)
    outside a h = ground arith
