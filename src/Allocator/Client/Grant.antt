-- ===== src/Allocator/Client/Grant.antt =====
-- What a granted pointer does to the blocks that callers hold.
use osdev_hikalium.Prelude.{
  ℕ, ◌≡◌, refl, inl, inr, Option, List, ◌∷◌, All-imp, Any, Any-append_left, Any-append_right,
  Any-append-cases, Any-All, arith,
}
use osdev_hikalium.Allocator.Memory.{Memory}
use osdev_hikalium.Allocator.FirstFit.{Layout}
use osdev_hikalium.Allocator.Regions.{Region, Apart, IsHeap, split}
use osdev_hikalium.Allocator.Chain.{Chain}
use osdev_hikalium.Allocator.Grants.{Serves}
use osdev_hikalium.Allocator.Alloc.{Granted}
use osdev_hikalium.Allocator.Client.{Block, area, Serving, IsSafe}

-- A region in use is not the one that is split.
Serves-Serving :
    (size k addr : ℕ) (rs rs' : List Region) (b : Block) (s : Serves size k rs addr rs')
    → Any (Serving b) rs
    → Any (Serving b) rs'
Serves-Serving size k addr rs rs' b s h =
    rw s.becomes
      (elim (Any-append-cases (Serving b) s.before (s.chosen ∷ s.after) (rw s.was at h)) [
        | inl l ↦ Any-append_left (Serving b) s.before _ l
        | inr (inl c) ↦ absurd (ground (arith, s.holds))
        | inr (inr r) ↦
            Any-append_right (Serving b) s.before _
              (Any-append_right (Serving b) (split s.chosen addr size) s.after r)
      ])

-- The new area is apart from the area of each block held.
Granted-Apart :
    (layout : Layout) (size k : ℕ) (rs rs' : List Region) (p : ℕ) (c : Block)
    → Granted layout size k rs p rs'
    → Any (Serving c) rs
    → Apart (area (record { pointer = p; layout = layout })) (area c)
Granted-Apart layout size k rs rs' p c g held =
    Any-All rs (λ r apart serving. ground (arith, apart serving.1, serving, g.enough)) g.apart held

Granted-Serving :
    (layout : Layout) (size k : ℕ) (rs rs' : List Region) (p : ℕ)
    → Granted layout size k rs p rs'
    → Any (Serving (record { pointer = p; layout = layout })) rs'
Granted-Serving layout size k rs rs' p g = rw g.serves.becomes (
    Any-append_right _ g.serves.before _
      (inr (inl (refl, refl, omega (arith, g.enough), omega (arith, g.serves.placed)))))

module _ (first : Option ℕ) (layout : Layout) (size k : ℕ) (m : Memory) (rs : List Region)
    (bs : List Block) (p : ℕ) (rs' : List Region) (m' : Memory) where
  pub Granted-IsSafe :
      (safe : IsSafe first (record { memory = m; blocks = bs }))
      → Granted layout size k safe.regions p rs'
      → Chain m' first rs'
      → IsHeap rs'
      → (after : IsSafe first
          (record { memory = m'; blocks = record { pointer = p; layout = layout } ∷ bs }))
        × (after.regions ≡ rs')
  Granted-IsSafe safe g c heap = (
    record {
      regions = rs';
      represents = c;
      heap = heap;
      served = (
        Granted-Serving layout size k safe.regions rs' p g,
        All-imp bs (λ b. Serves-Serving size k p safe.regions rs' b g.serves) safe.served,
      );
      separate = (
        All-imp bs (λ b. Granted-Apart layout size k safe.regions rs' p b g) safe.served,
        safe.separate,
      );
      aligned = (g.aligned, safe.aligned);
    },
    refl,
  )
