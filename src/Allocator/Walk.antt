-- ===== src/Allocator/Walk.antt =====
-- The loop of `alloc_with_options` over the linked headers implements first fit over the regions.
use osdev_hikalium.Prelude.{
  ℕ, zero, suc, ◌^◌, ◌≤◌, ◌<◌, ◌≡◌, refl, ◌∙◌, ◌⊎◌, inl, inr, true, Option, none, some, List, [],
  ◌∷◌, All, length, arith, Bool-cases,
}
use osdev_hikalium.Prelude.Usize.{Outcome, ok}
use osdev_hikalium.Allocator.Memory.{Header, Memory, load}
use osdev_hikalium.Allocator.Header.{provide, provide_rounded}
use osdev_hikalium.Allocator.FirstFit.{Layout, walk}
use osdev_hikalium.Allocator.Regions.{
  Region, end_of, IsSound, IsHeap, Apart, can_hold, skip, first_fit, first_fit-skip,
  first_fit-split,
}
use osdev_hikalium.Allocator.Chain.{header, Chain, Chain-frame}
use osdev_hikalium.Allocator.Request.{IsRequest, provide_refuses, provide-Splits}

-- The pointer and the regions that first fit comes to; `rs` are the regions before.
abbrev pub pointer : Option (ℕ × List Region) → Option ℕ
pointer none = none
pointer (some (addr, rs')) = some addr

abbrev pub regions_after : List Region → Option (ℕ × List Region) → List Region
regions_after rs none = rs
regions_after rs (some (addr, rs')) = rs'

-- An address that no free region of the list covers.
abbrev pub OutsideFree : ℕ → List Region → Type 0
OutsideFree q = All (λ r. (r.is_allocated ≡ true) ⊎ ((q < r.start) ⊎ (end_of r ≤ q)))

-- `out` is the normal return of `result`, in a memory that represents the regions after it.
pub record Implements (m : Memory) (first : Option ℕ) (rs : List Region)
    (result : Option (ℕ × List Region)) (out : Outcome (Option ℕ × Memory)) : Type 0 where
  pub memory : Memory
  pub returns : out ≡ ok (pointer result, memory)
  pub represents : Chain memory first (regions_after rs result)
  pub elsewhere : (q : ℕ) → OutsideFree q rs → memory q ≡ m q

start-OutsideFree :
    (r : Region) (rs : List Region)
    → IsSound r
    → All (Apart r) rs
    → IsHeap rs
    → OutsideFree r.start rs
start-OutsideFree r [] sound apart heap = tt
start-OutsideFree r (s ∷ rs) sound apart heap = (
  inr (ground (arith, sound.inhabited, heap.0.inhabited)),
  start-OutsideFree r rs sound apart.1 heap.2,
)

-- A region in front that was passed over.
Implements-skip :
    (m : Memory) (r : Region) (rs : List Region) (next : Option ℕ)
    (result : Option (ℕ × List Region)) {out : Outcome (Option ℕ × Memory)}
    → m r.start ≡ some (header next r.size r.is_allocated)
    → IsHeap (r ∷ rs)
    → Implements m next rs result out
    → Implements m (some r.start) (r ∷ rs) (skip r result) out
Implements-skip m r rs next none here heap i = record {
  memory = i.memory;
  returns = i.returns;
  represents = (
    refl,
    (next, i.elsewhere r.start (start-OutsideFree r rs heap.0 heap.1 heap.2) ∙ here, i.represents),
  );
  elsewhere = λ q far. i.elsewhere q far.1;
}
Implements-skip m r rs next (some (addr, rs')) here heap i = record {
  memory = i.memory;
  returns = i.returns;
  represents = (
    refl,
    (next, i.elsewhere r.start (start-OutsideFree r rs heap.0 heap.1 heap.2) ∙ here, i.represents),
  );
  elsewhere = λ q far. i.elsewhere q far.1;
}

module _ (layout : Layout) (size k : ℕ) (request : IsRequest size k)
    (provides : (e : ℕ) (m : Memory)
      → provide e layout.size layout.align m ≡ provide_rounded e size (2 ^ k) m) where
  walk_next :
      (fuel e : ℕ) (m : Memory) (h : Header)
      → m e ≡ some h
      → provide_rounded e size (2 ^ k) m ≡ ok (none, m)
      → walk layout (suc fuel) (some e) m ≡ walk layout fuel h.next_header m
  unfolding walk
  walk_next fuel e m h here refused = rw (provides e m, refused, here, load)

  walk_stop :
      (fuel e p : ℕ) (m m' : Memory)
      → provide_rounded e size (2 ^ k) m ≡ ok (some p, m')
      → walk layout (suc fuel) (some e) m ≡ ok (some p, m')
  unfolding walk
  walk_stop fuel e p m m' given = rw (provides e m, given)

  Implements-split :
      (fuel : ℕ) (m : Memory) (r : Region) (rs : List Region) (next : Option ℕ)
      → m r.start ≡ some (header next r.size r.is_allocated)
      → can_hold r size (2 ^ k) ≡ true
      → IsHeap (r ∷ rs)
      → Chain m next rs
      → Implements m
          (some r.start)
          (r ∷ rs)
          (first_fit size (2 ^ k) (r ∷ rs))
          (walk layout (suc fuel) (some r.start) m)
  Implements-split fuel m r rs next here chosen heap c =
      let s = provide-Splits m r next size k here request chosen heap.0 in
      rw (first_fit-split size (2 ^ k) r rs chosen) (record {
        memory = s.memory;
        returns = walk_stop fuel r.start _ m s.memory s.returns;
        represents = s.represents rs (Chain-frame m s.memory r next rs s.outside heap.1 heap.2 c);
        elsewhere = λ q far. s.outside q (ground (arith, far.0, chosen));
      })

  pub walk-Implements :
      (fuel : ℕ) (m : Memory) (first : Option ℕ) (rs : List Region)
      → length rs < fuel
      → IsHeap rs
      → Chain m first rs
      → Implements m first rs (first_fit size (2 ^ k) rs) (walk layout fuel first m)
  walk-Implements zero m first rs enough heap c = elim enough [ ]
  walk-Implements (suc fuel) m first [] enough heap c = record {
    memory = m;
    returns = unfold walk first_fit in rw c;
    represents = unfold first_fit in c;
    elsewhere = λ q far. refl;
  }
  walk-Implements (suc fuel) m first (r ∷ rs) enough heap (e, (next, here, c)) =
      rw e (elim (Bool-cases (can_hold r size (2 ^ k))) [
        | inl chosen ↦ Implements-split fuel m r rs next here chosen heap c
        | inr refused ↦
            rw
              (
                first_fit-skip size (2 ^ k) r rs refused,
                walk_next fuel r.start m _ here
                    (provide_refuses m r next size k here request refused),
              )
              (Implements-skip m r rs next _ here heap
                (walk-Implements fuel m next rs (omega arith) heap.2 c))
      ])
