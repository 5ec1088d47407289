-- ===== src/Allocator/Client.antt =====
-- The allocator of wasabi/src/allocator.rs with its callers: what they hold, and the calls that they
-- may make, in any order.
pub mod Grant
pub mod Release
pub mod History
mod Once
mod Example
use osdev_hikalium.Prelude.{
  ℕ, ◌+◌, ◌-◌, ◌%◌, ◌≤◌, ◌≡◌, true, Option, none, some, List, [], ◌∷◌, ◌++◌, All, Any,
}
use osdev_hikalium.Prelude.Usize.{ok}
use osdev_hikalium.Allocator.Memory.{Memory}
use osdev_hikalium.Allocator.FirstFit.{Layout, alloc_with_options, dealloc}
use osdev_hikalium.Allocator.Regions.{Region, region, Apart, IsHeap}
use osdev_hikalium.Allocator.Chain.{Chain}
use osdev_hikalium.Allocator.Layouts.{IsLayout}

-- A pointer that a caller has got for a layout and not given back.
pub record Block : Type 0 where
  pub pointer : ℕ
  pub layout : Layout

-- The headers, and the blocks that callers hold.
pub record System : Type 0 where
  pub memory : Memory
  pub blocks : List Block

-- One call. A caller gives back only what it holds, as `GlobalAlloc` asks of it, and alloc_with_options is
-- asked only for the layouts that Rust can build.
pub data Step (first : Option ℕ) (s t : System) : Type 0 where
  granted :
      (fuel j : ℕ) (layout : Layout) (p : ℕ)
      → IsLayout layout j
      → alloc_with_options fuel first layout s.memory ≡ ok (some p, t.memory)
      → t.blocks ≡ record { pointer = p; layout = layout } ∷ s.blocks
      → Step first s t
  refused :
      (fuel j : ℕ) (layout : Layout)
      → IsLayout layout j
      → alloc_with_options fuel first layout s.memory ≡ ok (none, t.memory)
      → t.blocks ≡ s.blocks
      → Step first s t
  released :
      (before after : List Block) (b : Block)
      → s.blocks ≡ before ++ b ∷ after
      → dealloc b.pointer s.memory ≡ ok (tt, t.memory)
      → t.blocks ≡ before ++ after
      → Step first s t

-- Any history of calls.
pub data Reach (first : Option ℕ) (s : System) : System → Type 0 where
  here : Reach first s s
  next : {t u : System} → Reach first s t → Step first t u → Reach first s u

-- The bytes of a block with the header below it.
abbrev pub area : Block → Region
area b = region (b.pointer - 32) (b.layout.size + 32) true

-- The region in use of a block: its header lies right below the pointer, and its bytes suffice.
abbrev pub Serving : Block → Region → Type 0
Serving b r =
    (r.start ≡ b.pointer - 32)
    × (r.is_allocated ≡ true)
    × (b.layout.size + 32 ≤ r.size)
    × (32 ≤ b.pointer)

-- No two blocks share a byte, their headers included.
abbrev pub Separate : List Block → Type 0
Separate [] = Unit
Separate (b ∷ bs) = All (λ c. Apart (area b) (area c)) bs × Separate bs

abbrev pub IsAligned : Block → Type 0
IsAligned b = b.pointer % b.layout.align ≡ 0

-- The heap is well formed, and the blocks are aligned, apart, and each backed by a region in use.
pub record IsSafe (first : Option ℕ) (s : System) : Type 0 where
  pub regions : List Region
  pub represents : Chain s.memory first regions
  pub heap : IsHeap regions
  pub served : All (λ b. Any (Serving b) regions) s.blocks
  pub separate : Separate s.blocks
  pub aligned : All IsAligned s.blocks
