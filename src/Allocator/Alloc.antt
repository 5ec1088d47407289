-- ===== src/Allocator/Alloc.antt =====
-- `alloc_with_options` as its callers see it.
use osdev_hikalium.Prelude.{
  ℕ, ◌+◌, ◌-◌, ◌%◌, ◌^◌, ◌≤◌, ◌<◌, ◌≡◌, refl, true, false, Option, none, some, List, All, length,
}
use osdev_hikalium.Prelude.Usize.{Outcome, ok}
use osdev_hikalium.Allocator.Memory.{Memory}
use osdev_hikalium.Allocator.FirstFit.{Layout, alloc_with_options}
use osdev_hikalium.Allocator.Regions.{Region, region, Apart, IsHeap, can_hold, first_fit}
use osdev_hikalium.Allocator.Chain.{Chain}
use osdev_hikalium.Allocator.Layouts.{IsLayout, Raises, layout-Raises}
use osdev_hikalium.Allocator.Walk.{OutsideFree, walk-Implements, pointer, regions_after}
use osdev_hikalium.Allocator.Grants.{
  Answers, Serves, first_fit-Answers, Serves-IsHeap, Serves-Apart, mul-pow-mod-pow,
}

-- The pointer `p` that a request is answered with: aligned, with a header below it and room for the
-- layout above, apart from what is in use, and cut from the first region that could hold it.
pub record Granted (layout : Layout) (size k : ℕ) (rs : List Region) (p : ℕ) (rs' : List Region)
    : Type 0 where
  pub aligned : p % layout.align ≡ 0
  pub enough : layout.size ≤ size
  pub apart : All (λ r. r.is_allocated ≡ true → Apart (region (p - 32) (size + 32) true) r) rs
  pub serves : Serves size k rs p rs'

-- A null pointer changes nothing, and means that no region is free and large enough.
abbrev pub Answered : Layout → ℕ → ℕ → List Region → Option ℕ → List Region → Type 0
Answered layout size k rs none rs' = (rs' ≡ rs) × All (λ r. can_hold r size (2 ^ k) ≡ false) rs
Answered layout size k rs (some p) rs' = Granted layout size k rs p rs'

pub record Allocates (layout : Layout) (j : ℕ) (m : Memory) (first : Option ℕ) (rs : List Region)
    (out : Outcome (Option ℕ × Memory)) : Type 0 where
  pub result : Option ℕ
  pub memory : Memory
  pub regions : List Region
  pub raised : Raises layout j
  pub returns : out ≡ ok (result, memory)
  pub represents : Chain memory first regions
  pub heap : IsHeap regions
  pub answered : Answered layout raised.size raised.exponent rs result regions
  pub elsewhere : (q : ℕ) → OutsideFree q rs → memory q ≡ m q

module _ (layout : Layout) (j : ℕ) (valid : IsLayout layout j) (rs : List Region) (heap : IsHeap rs)
    (raised : Raises layout j) where
  Answered-first_fit :
      (result : Option (ℕ × List Region))
      → Answers raised.size raised.exponent rs result
      → IsHeap (regions_after rs result)
        × Answered layout raised.size raised.exponent rs (pointer result) (regions_after rs result)
  Answered-first_fit none a = (heap, (refl, a))
  Answered-first_fit (some (p, rs')) a = (
    Serves-IsHeap raised.size raised.exponent p rs rs' raised.request heap a,
    record {
      aligned =
          rw (a.aligned, valid.power) (mul-pow-mod-pow a.multiple j raised.exponent raised.coarser);
      enough = raised.enough;
      apart = Serves-Apart raised.size raised.exponent p rs rs' raised.request heap a;
      serves = a;
    },
  )

-- On a heap that satisfies its invariant, for a valid layout and more fuel than there are regions,
-- alloc_with_options returns without a panic, a fault or running out of fuel, and the links in
-- memory then represent a heap that satisfies the invariant. Either the pointer is null, nothing
-- changed and every region is in use or too small for the raised request; or the pointer is a
-- multiple of the alignment, with a header below it and room for the layout above it, apart from
-- every region in use, and it was cut out of the first region that can hold the request. No header
-- outside the free regions changes.
pub alloc_with_options-Allocates :
    (layout : Layout) (j fuel : ℕ) (m : Memory) (first : Option ℕ) (rs : List Region)
    → IsLayout layout j
    → IsHeap rs
    → Chain m first rs
    → length rs < fuel
    → Allocates layout j m first rs (alloc_with_options fuel first layout m)
unfolding alloc_with_options
alloc_with_options-Allocates layout j fuel m first rs valid heap c enough =
    let raised = layout-Raises layout j valid in
    let run =
      walk-Implements layout raised.size raised.exponent raised.request raised.provides fuel m first
        rs enough heap c in
    let result = first_fit raised.size (2 ^ raised.exponent) rs in
    let good =
      Answered-first_fit layout j valid rs heap raised result
        (first_fit-Answers raised.size raised.exponent raised.request rs) in
    record {
      result = pointer result;
      memory = run.memory;
      regions = regions_after rs result;
      raised = raised;
      returns = run.returns;
      represents = run.represents;
      heap = good.0;
      answered = good.1;
      elsewhere = run.elsewhere;
    }
