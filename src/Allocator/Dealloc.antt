-- ===== src/Allocator/Dealloc.antt =====
-- `dealloc` marks one region free and changes nothing else.
use osdev_hikalium.Prelude.{
  ℕ, ◌-◌, ◌≤◌, ◌<◌, ◌≡◌, ◌≢◌, Bool, true, false, Option, some, List, [], ◌∷◌, ◌++◌,
  All-append_right, arith,
}
use osdev_hikalium.Prelude.Usize.{Outcome, ok}
use osdev_hikalium.Allocator.Memory.{Memory, update}
use osdev_hikalium.Allocator.FirstFit.{dealloc}
use osdev_hikalium.Allocator.Regions.{Region, region, end_of, IsSound, Apart, IsHeap}
use osdev_hikalium.Allocator.Chain.{header, Chain, Chain-frame, SameOutside}
use osdev_hikalium.Allocator.Pieces.{IsHeap-middle, IsHeap-replace}

-- The header of a region in the chain, and the chain after its mark is written.
pub record Marked (m : Memory) (first : Option ℕ) (before : List Region) (r : Region)
    (after : List Region) (b : Bool) : Type 0 where
  pub next : Option ℕ
  pub here : m r.start ≡ some (header next r.size r.is_allocated)
  pub represents :
      Chain
        (update m r.start (header next r.size b))
        first
        (before ++ region r.start r.size b ∷ after)

update-SameOutside :
    (m : Memory) (r : Region) (next : Option ℕ) (b : Bool)
    → 0 < r.size
    → SameOutside r.start (end_of r) m (update m r.start (header next r.size b))
update-SameOutside m r next b pos q far = ground arith

pub mark-Chain :
    (m : Memory) (first : Option ℕ) (before : List Region) (r : Region) (after : List Region)
    (b : Bool)
    → IsHeap (before ++ r ∷ after)
    → Chain m first (before ++ r ∷ after)
    → Marked m first before r after b
mark-Chain m first [] r after b heap (e, (next, here, c)) = record {
  next = next;
  here = here;
  represents = (
    e,
    (
      next,
      ground arith,
      Chain-frame m _ r next after (update-SameOutside m r next b heap.0.inhabited) heap.1 heap.2 c,
    ),
  );
}
mark-Chain m first (x ∷ before) r after b heap (e, (next, here, c)) =
    let rest = mark-Chain m next before r after b heap.2 c in
    let apart : Apart x r = (All-append_right (Apart x) before (r ∷ after) heap.1).0 in
    let sound = (IsHeap-middle r before after heap.2).1.0 in
    let other : x.start ≢ r.start = ground (arith, heap.0.inhabited, sound.inhabited, apart) in
    record {
      next = rest.next;
      here = rest.here;
      represents = (e, (next, ground arith, rest.represents));
    }

-- Soundness does not depend on the mark.
pub remark-IsSound : (a n : ℕ) (b c : Bool) → IsSound (region a n b) → IsSound (region a n c)
remark-IsSound a n b c s = record {
  start_aligned = s.start_aligned;
  size_aligned = s.size_aligned;
  inhabited = s.inhabited;
  in_space = s.in_space;
}

-- `out` is a normal return after which the region of `p` is free.
pub record Frees (m : Memory) (first : Option ℕ) (before after : List Region) (p n : ℕ)
    (out : Outcome (Unit {0} × Memory)) : Type 0 where
  pub memory : Memory
  pub returns : out ≡ ok (tt, memory)
  pub represents : Chain memory first (before ++ region (p - 32) n false ∷ after)
  pub heap : IsHeap (before ++ region (p - 32) n false ∷ after)
  pub elsewhere : (q : ℕ) → q ≢ p - 32 → memory q ≡ m q

-- For a pointer whose header is that of a region in use, dealloc returns without a panic or a
-- fault, the region is free afterwards, every other region and every other header is as before,
-- and the heap keeps its invariant.
pub dealloc-Frees :
    (m : Memory) (first : Option ℕ) (before after : List Region) (p n : ℕ)
    → 32 ≤ p
    → IsHeap (before ++ region (p - 32) n true ∷ after)
    → Chain m first (before ++ region (p - 32) n true ∷ after)
    → Frees m first before after p n (dealloc p m)
dealloc-Frees m first before after p n low heap c =
    let sound = (IsHeap-middle (region (p - 32) n true) before after heap).1.0 in
    let marked = mark-Chain m first before (region (p - 32) n true) after false heap c in
    record {
      memory = update m (p - 32) (header marked.next n false);
      returns = unfold dealloc in ground arith;
      represents = marked.represents;
      heap =
          IsHeap-replace (region (p - 32) n true) before (region (p - 32) n false ∷ []) after
            (omega arith) (remark-IsSound (p - 32) n true false sound, tt, tt) heap;
      elsewhere = λ q other. ground arith;
    }
