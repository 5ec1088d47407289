-- ===== src/Allocator/Client/History.antt =====
-- Every history of calls keeps the blocks safe.
use osdev_hikalium.Prelude.{
  ℕ, zero, suc, ◌+◌, ◌≡◌, refl, sym, ◌∙◌, ap, Option, none, some, List, ◌∷◌, ◌++◌, length, ◌≤◌, ◌<◌,
  arith,
}
use osdev_hikalium.Prelude.Usize.{Outcome, ok, out_of_fuel, panic, fault}
use osdev_hikalium.Allocator.Memory.{Memory, Header, load, pure, and_then, ◌>>=◌}
use osdev_hikalium.Allocator.Header.{provide}
use osdev_hikalium.Allocator.FirstFit.{Layout, walk, alloc_with_options, dealloc}
use osdev_hikalium.Allocator.Regions.{Region, IsHeap}
use osdev_hikalium.Allocator.Layouts.{IsLayout}
use osdev_hikalium.Allocator.Chain.{Chain}
use osdev_hikalium.Allocator.Alloc.{Allocates, Answered, alloc_with_options-Allocates}
use osdev_hikalium.Allocator.Client.{
  Block, System, Step, Reach, granted, refused, released, here, next, IsSafe,
}
use osdev_hikalium.Allocator.Client.Grant.{Granted-IsSafe}
use osdev_hikalium.Allocator.Client.Release.{dealloc-Keeps}

-- One round of the loop, on what provide came to.
abbrev round : Layout → ℕ → ℕ → Outcome (Option ℕ × Memory) → Outcome (Option ℕ × Memory)
round layout fuel a out =
    and_then out
      (elim [ some p ↦ pure (some p) | none ↦ load a >>= λ h. walk layout fuel h.next_header ])

round_found :
    (layout : Layout) (fuel a : ℕ) (m : Memory) (h : Header)
    → m a ≡ some h
    → round layout fuel a (ok (none, m)) ≡ walk layout fuel h.next_header m
round_found layout fuel a m h found = ground arith

module _ (layout : Layout) (fuel fuel' a : ℕ) (x : Option ℕ × Memory)
    (more : (link : Option ℕ) (m : Memory)
      → walk layout fuel link m ≡ ok x
      → walk layout fuel' link m ≡ ok x) where
  on_loaded :
      (h : Option Header) (m : Memory)
      → m a ≡ h
      → round layout fuel a (ok (none, m)) ≡ ok x
      → round layout fuel' a (ok (none, m)) ≡ ok x
  on_loaded none m empty e = ground arith
  on_loaded (some y) m found e =
      round_found layout fuel' a m y found
      ∙ more y.next_header m (sym (round_found layout fuel a m y found) ∙ e)

  round_more :
      (out : Outcome (Option ℕ × Memory))
      → round layout fuel a out ≡ ok x
      → round layout fuel' a out ≡ ok x
  round_more (ok (some p, m)) e = e
  round_more (ok (none, m)) e = on_loaded (m a) m refl e
  round_more panic e = absurd (cc e)
  round_more fault e = absurd (cc e)
  round_more out_of_fuel e = absurd (cc e)

-- More fuel gives the same result.
walk_more :
    (layout : Layout) (fuel fuel' : ℕ) (x : Option ℕ × Memory)
    → fuel ≤ fuel'
    → (link : Option ℕ) (m : Memory) → walk layout fuel link m ≡ ok x
    → walk layout fuel' link m ≡ ok x
unfolding walk
walk_more layout zero fuel' x h link m e = absurd (cc e)
walk_more layout (suc fuel) zero x h link m e = elim h [ ]
walk_more layout (suc fuel) (suc fuel') x h none m e = e
walk_more layout (suc fuel) (suc fuel') x h (some a) m e =
    round_more layout fuel fuel' a x (walk_more layout fuel fuel' x (omega arith))
      (provide a layout.size layout.align m) e

pub ok_injective : {A : Type 0} {a b : A} → ok a ≡ ok b → a ≡ b
ok_injective e = cc e

-- Whatever fuel a run took, its result is the one that the regions determine.
pub returned-Allocates :
    (first : Option ℕ) (fuel j : ℕ) (layout : Layout) (m : Memory) (rs : List Region)
    (x : Option ℕ × Memory)
    → IsLayout layout j
    → IsHeap rs
    → Chain m first rs
    → alloc_with_options fuel first layout m ≡ ok x
    → Allocates layout j m first rs (ok x)
unfolding alloc_with_options
returned-Allocates first fuel j layout m rs x valid heap c e =
    let fuel' = fuel + length rs + 1 in
    let e' : alloc_with_options fuel' first layout m ≡ ok x =
      walk_more layout fuel fuel' x (omega arith) first m e in
    rw e' at (alloc_with_options-Allocates layout j fuel' m first rs valid heap c (omega arith))

module _ (first : Option ℕ) (layout : Layout) (j : ℕ) (m m' : Memory) (bs : List Block)
    (safe : IsSafe first (record { memory = m; blocks = bs })) where
  answer-IsSafe :
      (result : Option ℕ) (size k : ℕ) (rs' : List Region)
      → Answered layout size k safe.regions result rs'
      → Chain m' first rs'
      → IsHeap rs'
      → (p : ℕ) → result ≡ some p
      → IsSafe first (record { memory = m'; blocks = record { pointer = p; layout = layout } ∷ bs })
  answer-IsSafe none size k rs' a c heap p e = absurd (cc e)
  answer-IsSafe (some q) size k rs' a c heap p e =
      rw (← e') ((Granted-IsSafe first layout size k m safe.regions bs q rs' m' safe a c heap).0)
    where
      e' : q ≡ p
      e' = cc e

  null-IsSafe :
      (result : Option ℕ) (size k : ℕ) (rs' : List Region)
      → Answered layout size k safe.regions result rs'
      → Chain m' first rs'
      → IsHeap rs'
      → result ≡ none
      → IsSafe first (record { memory = m'; blocks = bs })
  null-IsSafe none size k rs' a c heap e = record {
    regions = rs';
    represents = c;
    heap = heap;
    served = rw a.0 safe.served;
    separate = safe.separate;
    aligned = safe.aligned;
  }
  null-IsSafe (some q) size k rs' a c heap e = absurd (cc e)

module _ (first : Option ℕ) (m m' : Memory) (before after : List Block) (b : Block) where
  released-IsSafe :
      (bs : List Block)
      → bs ≡ before ++ b ∷ after
      → dealloc b.pointer m ≡ ok (tt, m')
      → IsSafe first (record { memory = m; blocks = bs })
      → IsSafe first (record { memory = m'; blocks = before ++ after })
  released-IsSafe bs was e safe =
      let kept = dealloc-Keeps first m before after b (rw was at safe) in
      rw (ap (λ x. x.1) (ok_injective (sym e ∙ kept.returns))) kept.safe

-- A call keeps the blocks safe.
pub Step-IsSafe :
    (first : Option ℕ) (s t : System) → Step first s t → IsSafe first s → IsSafe first t
Step-IsSafe first s t (granted fuel j layout p valid e blocks) safe =
    let a =
      returned-Allocates first fuel j layout s.memory safe.regions _ valid safe.heap safe.represents
        e in
    let same = ok_injective a.returns in
    rw blocks (
      answer-IsSafe first layout j s.memory t.memory s.blocks safe a.result a.raised.size
        a.raised.exponent a.regions a.answered (rw (← (ap (λ x. x.1) same)) at a.represents) a.heap
        p (sym (ap (λ x. x.0) same)))
Step-IsSafe first s t (refused fuel j layout valid e blocks) safe =
    let a =
      returned-Allocates first fuel j layout s.memory safe.regions _ valid safe.heap safe.represents
        e in
    let same = ok_injective a.returns in
    rw blocks (
      null-IsSafe first layout j s.memory t.memory s.blocks safe a.result a.raised.size
        a.raised.exponent a.regions a.answered (rw (← (ap (λ x. x.1) same)) at a.represents) a.heap
        (sym (ap (λ x. x.0) same)))
Step-IsSafe first s t (released before after b was e blocks) safe =
    rw blocks (released-IsSafe first s.memory t.memory before after b s.blocks was e safe)

-- From a heap that is safe, every history of calls, in which callers ask for valid layouts, get a
-- pointer or null, and give back blocks that they hold, leads to a heap that is safe: the headers
-- represent regions that satisfy the heap invariant, and the blocks that callers hold are aligned,
-- are each backed by a region in use that is large enough, and share no byte with one another,
-- their headers included.
pub Reach-IsSafe :
    (first : Option ℕ) (s t : System) → IsSafe first s → Reach first s t → IsSafe first t
Reach-IsSafe first s t safe here = safe
Reach-IsSafe first s t safe (next r step) =
    Step-IsSafe first _ t step (Reach-IsSafe first s _ safe r)

-- Every call that a caller may make next returns: a request gets a pointer or null, in any fuel
-- above a bound, and what a caller holds can be given back.
pub record Responds (first : Option ℕ) (s : System) : Type 0 where
  pub bound : ℕ
  pub allocates :
      (fuel j : ℕ) (layout : Layout)
      → IsLayout layout j
      → bound < fuel
      → (result : Option ℕ) × (m : Memory) × (alloc_with_options fuel first layout s.memory
          ≡ ok (result, m))
  pub deallocates :
      (before after : List Block) (b : Block)
      → s.blocks ≡ before ++ b ∷ after
      → (m : Memory) × (dealloc b.pointer s.memory ≡ ok (tt, m))

-- After every history of calls from a heap that is safe, alloc_with_options returns for each valid
-- layout without a panic or a fault, given fuel above some bound, and so does dealloc for each
-- block that a caller holds.
pub Reach-Responds :
    (first : Option ℕ) (s t : System) → IsSafe first s → Reach first s t → Responds first t
Reach-Responds first s t start r =
    let safe = Reach-IsSafe first s t start r in
    record {
      bound = length safe.regions;
      allocates = λ fuel j layout valid enough.
          let a =
            alloc_with_options-Allocates layout j fuel t.memory first safe.regions valid safe.heap
              safe.represents enough in
          (a.result, a.memory, a.returns);
      deallocates = λ before after b was.
          let kept = dealloc-Keeps first t.memory before after b (rw was at safe) in
          (kept.memory, kept.returns);
    }
