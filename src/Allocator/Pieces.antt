-- ===== src/Allocator/Pieces.antt =====
-- Splitting one region of a heap into pieces keeps the heap's invariant.
use osdev_hikalium.Prelude.{
  ℕ, ◌+◌, ◌-◌, ◌%◌, ◌≤◌, ◌<◌, ◌≡◌, inl, inr, Bool-cases, ◌==◌, true, false, List, [], ◌∷◌, ◌++◌,
  All, arith, All-append, All-append_left, All-append_right, All-imp,
}
use osdev_hikalium.Allocator.Regions.{
  Region, region, end_of, IsSound, Apart, IsHeap, split, padding_of,
}
use osdev_hikalium.Allocator.Provide.{IsPlaced}

-- `p` lies in `r`.
abbrev pub Within : Region → Region → Type 0
Within r p = (r.start ≤ p.start) × (end_of p ≤ end_of r)

Apart-Within : (x r p : Region) → Within r p → Apart x r → Apart x p
Apart-Within x r p w a = ground arith

pub Within-Apart : (x r p : Region) → Within r p → Apart r x → Apart p x
Within-Apart x r p w a = ground arith

All-Apart-replace :
    (x r : Region) (before ps after : List Region)
    → All (Within r) ps
    → All (Apart x) (before ++ r ∷ after)
    → All (Apart x) (before ++ (ps ++ after))
All-Apart-replace x r before ps after w a =
    let rest = All-append_right (Apart x) before (r ∷ after) a in
    All-append (Apart x) before (ps ++ after) (All-append_left (Apart x) before (r ∷ after) a)
      (All-append (Apart x) ps after (All-imp ps (λ p wp. Apart-Within x r p wp rest.0) w) rest.1)

IsHeap-append_pieces :
    (r : Region) (ps after : List Region)
    → All (Within r) ps
    → All (Apart r) after
    → IsHeap ps
    → IsHeap after
    → IsHeap (ps ++ after)
IsHeap-append_pieces r [] after w apart h k = k
IsHeap-append_pieces r (p ∷ ps) after w apart h k = (
  h.0,
  All-append (Apart p) ps after h.1 (All-imp after (λ x. Within-Apart x r p w.0) apart),
  IsHeap-append_pieces r ps after w.1 apart h.2 k,
)

-- A region in the middle of a heap: what comes before is apart from it, and the rest is a heap.
pub IsHeap-middle :
    (r : Region) (before after : List Region)
    → IsHeap (before ++ r ∷ after)
    → All (λ x. Apart x r) before × IsHeap (r ∷ after)
IsHeap-middle r [] after h = (tt, h)
IsHeap-middle r (x ∷ before) after h =
    let rest = IsHeap-middle r before after h.2 in
    (((All-append_right (Apart x) before (r ∷ after) h.1).0, rest.0), rest.1)

-- The region in the middle of a heap is replaced by a heap within it.
pub IsHeap-replace :
    (r : Region) (before ps after : List Region)
    → All (Within r) ps
    → IsHeap ps
    → IsHeap (before ++ r ∷ after)
    → IsHeap (before ++ (ps ++ after))
IsHeap-replace r [] ps after w h k = IsHeap-append_pieces r ps after w k.1 h k.2
IsHeap-replace r (x ∷ before) ps after w h k =
    (k.0, All-Apart-replace x r before ps after w k.1, IsHeap-replace r before ps after w h k.2)

All-padding :
    (P : Region → Type 0) (r : Region) (a : ℕ)
    → a ≤ end_of r
    → (a < end_of r → P (region a (end_of r - a) false))
    → All P (padding_of r a)
All-padding P r a below h = elim (Bool-cases (a == end_of r)) [
  | inl e ↦ rw e tt
  | inr e ↦ rw e (h (ground arith), tt)
]

IsHeap-padding :
    (r : Region) (a : ℕ)
    → a ≤ end_of r
    → (a < end_of r → IsSound (region a (end_of r - a) false))
    → IsHeap (padding_of r a)
IsHeap-padding r a below h = elim (Bool-cases (a == end_of r)) [
  | inl e ↦ rw e tt
  | inr e ↦ rw e (h (ground arith), tt, tt)
]

module _ (r : Region) (addr size : ℕ) (sound : IsSound r) (placed : IsPlaced r size addr)
    (aligned : size % 32 ≡ 0) where
  pub split-Within : All (Within r) (split r addr size)
  split-Within = (
    omega (arith, placed),
    (
      omega (arith, placed),
      All-padding (Within r) r (addr + size) placed.below (λ lt. omega (arith, placed)),
    ),
  )

  left : Region
  left = region r.start (addr - 32 - r.start) false

  area : Region
  area = region (addr - 32) (size + 32) true

  left-IsSound : IsSound left
  unfolding left
  left-IsSound = omega (arith, placed, sound)

  area-IsSound : IsSound area
  unfolding area
  area-IsSound = omega (arith, placed, sound)

  padding-IsSound :
      addr + size < end_of r → IsSound (region (addr + size) (end_of r - (addr + size)) false)
  padding-IsSound lt = omega (arith, placed, sound)

  pub split-IsHeap : IsHeap (split r addr size)
  unfolding left area
  split-IsHeap = (
    left-IsSound,
    (
      omega (arith, placed),
      All-padding (Apart left) r (addr + size) placed.below (λ lt. omega (arith, placed)),
    ),
    (
      area-IsSound,
      All-padding (Apart area) r (addr + size) placed.below (λ lt. omega (arith, placed)),
      IsHeap-padding r (addr + size) placed.below padding-IsSound,
    ),
  )
