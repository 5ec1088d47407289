-- ===== src/Allocator/Regions.antt =====
-- The abstract view of the heap: the regions that the headers describe, in list order.
use osdev_hikalium.Prelude.{
  ℕ, ◌+◌, ◌-◌, ◌*◌, ◌/◌, ◌%◌, ◌≤◌, ◌<◌, ◌≡◌, ◌⊎◌, Bool, true, false, not, ◌&&◌, Option, none, some,
  List, [], ◌∷◌, ◌++◌, leb, ◌==◌, if◌then◌else◌, All,
}
use osdev_hikalium.Prelude.Usize.{word_mod}
use osdev_hikalium.Allocator.Memory.{header_size}

-- A region is a header with the bytes up to the next one: `size` counts both.
pub record Region : Type 0 where
  pub start : ℕ
  pub size : ℕ
  pub is_allocated : Bool

abbrev pub end_of : Region → ℕ
end_of r = r.start + r.size

abbrev pub region : ℕ → ℕ → Bool → Region
region a n b = record { start = a; size = n; is_allocated = b }

-- Headers lie on multiples of their size, and no region reaches past the address space.
pub record IsSound (r : Region) : Type 0 where
  pub start_aligned : r.start % header_size ≡ 0
  pub size_aligned : r.size % header_size ≡ 0
  pub inhabited : 0 < r.size
  pub in_space : end_of r < word_mod

-- Two regions share no byte.
abbrev pub Apart : Region → Region → Type 0
Apart r s = (end_of r ≤ s.start) ⊎ (end_of s ≤ r.start)

-- The invariant of the heap.
abbrev pub IsHeap : List Region → Type 0
IsHeap [] = Unit
IsHeap (r ∷ rs) = IsSound r × All (Apart r) rs × IsHeap rs

-- What first fit does, with the size and the alignment as `provide` raises them.
abbrev pub can_hold : Region → ℕ → ℕ → Bool
can_hold r size align = not r.is_allocated && leb (size + 64 + align) r.size

-- The highest aligned address that leaves room for the area.
abbrev pub area_addr : Region → ℕ → ℕ → ℕ
area_addr r size align = (end_of r - size) / align * align

abbrev pub padding_of : Region → ℕ → List Region
padding_of r area_end =
    if area_end == end_of r then [] else region area_end (end_of r - area_end) false ∷ []

abbrev pub split : Region → ℕ → ℕ → List Region
split r addr size =
    region r.start (addr - header_size - r.start) false
    ∷ region (addr - header_size) (size + header_size) true
    ∷ padding_of r (addr + size)

-- A region that is passed over stays in front.
abbrev pub skip : Region → Option (ℕ × List Region) → Option (ℕ × List Region)
skip r none = none
skip r (some (addr, rs)) = some (addr, r ∷ rs)

unfoldable pub first_fit : ℕ → ℕ → List Region → Option (ℕ × List Region)
first_fit size align [] = none
first_fit size align (r ∷ rs) =
    let rest = skip r (first_fit size align rs) in
    let addr = area_addr r size align in
    if can_hold r size align then some (addr, split r addr size ++ rs) else rest

pub first_fit-skip :
    (size align : ℕ) (r : Region) (rs : List Region)
    → can_hold r size align ≡ false
    → first_fit size align (r ∷ rs) ≡ skip r (first_fit size align rs)
unfolding first_fit
first_fit-skip size align r rs refused = rw refused

pub first_fit-split :
    (size align : ℕ) (r : Region) (rs : List Region)
    → can_hold r size align ≡ true
    → first_fit size align (r ∷ rs)
      ≡ some (area_addr r size align, split r (area_addr r size align) size ++ rs)
unfolding first_fit
first_fit-split size align r rs chosen = rw chosen
