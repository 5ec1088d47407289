-- ===== src/Allocator/Cycle.antt =====
-- Allocating and then freeing.
use osdev_hikalium.Prelude.{
  ℕ, ◌+◌, ◌-◌, ◌≡◌, refl, ◌∙◌, sym, true, false, Option, none, List, [], ◌∷◌, ◌++◌, arith,
  append-nil, Bool-cases, inl, inr, ◌==◌, ◌^◌, if◌then◌else◌,
}
use osdev_hikalium.Prelude.Usize.{Outcome, ok}
use osdev_hikalium.Allocator.Memory.{Memory}
use osdev_hikalium.Allocator.Header.{provide}
use osdev_hikalium.Allocator.FirstFit.{Layout, dealloc}
use osdev_hikalium.Allocator.Regions.{Region, region, end_of, IsHeap, padding_of, can_hold}
use osdev_hikalium.Allocator.Chain.{Chain}
use osdev_hikalium.Allocator.Dealloc.{dealloc-Frees, mark-Chain}
use osdev_hikalium.Allocator.Layouts.{Raises}
use osdev_hikalium.Allocator.Grants.{front, back, around}
use osdev_hikalium.Allocator.Request.{provide_refuses}
use osdev_hikalium.Allocator.Alloc.{Granted}

-- The regions that are handed out, in list order.
abbrev pub in_use : List Region → List Region
in_use [] = []
in_use (r ∷ rs) = if r.is_allocated then r ∷ in_use rs else in_use rs

in_use-append : (xs ys : List Region) → in_use (xs ++ ys) ≡ in_use xs ++ in_use ys
in_use-append [] ys = refl
in_use-append (x ∷ xs) ys = ground (arith, in_use-append xs ys)

in_use-padding : (r : Region) (a : ℕ) → in_use (padding_of r a) ≡ []
in_use-padding r a = elim (Bool-cases (a == end_of r)) [ inl e ↦ rw e | inr e ↦ rw e ]

in_use_free :
    (r : Region) (after : List Region) → r.is_allocated ≡ false → in_use (r ∷ after) ≡ in_use after
in_use_free r after e = rw e

can_hold_free :
    (r : Region) (size align : ℕ) → can_hold r size align ≡ true → r.is_allocated ≡ false
can_hold_free r size align h = ground arith

can_hold_freed : (a size align : ℕ) → can_hold (region a (size + 32) false) size align ≡ false
can_hold_freed a size align = ground arith

-- `out` is a normal return after which the regions in use are those of `rs`, and the freed region
-- turns down the layout that it served.
pub record Restores (layout : Layout) (first : Option ℕ) (rs : List Region) (p : ℕ)
    (out : Outcome (Unit {0} × Memory)) : Type 0 where
  pub memory : Memory
  pub regions : List Region
  pub returns : out ≡ ok (tt, memory)
  pub represents : Chain memory first regions
  pub heap : IsHeap regions
  pub used : in_use regions ≡ in_use rs
  pub refuses : provide (p - 32) layout.size layout.align memory ≡ ok (none, memory)

module _ (layout : Layout) (j : ℕ) (raised : Raises layout j) (m : Memory) (first : Option ℕ)
    (rs rs' : List Region) (p : ℕ) (g : Granted layout raised.size raised.exponent rs p rs')
    (heap : IsHeap rs') (c : Chain m first rs') where
  open g.serves use {before, chosen, after, was, becomes, holds, placed}

  used_before : in_use rs ≡ in_use before ++ in_use after
  used_before =
      rw (was, in_use-append before (chosen ∷ after))
        (rw
          (in_use_free chosen after (can_hold_free chosen raised.size (2 ^ raised.exponent) holds)))

  used_after :
      in_use (front g.serves ++ region (p - 32) (raised.size + 32) false ∷ back g.serves)
      ≡ in_use before ++ in_use after
  used_after = simp (in_use-append, append-nil, in_use-padding)

  -- When a pointer that was granted for a layout is given to dealloc, the regions in use are again
  -- those from before the grant, the heap keeps its invariant, and provide on the freed region
  -- turns the same layout down.
  pub dealloc-Restores : Restores layout first rs p (dealloc p m)
  dealloc-Restores =
      let done =
        dealloc-Frees m first (front g.serves) (back g.serves) p (raised.size + 32)
          (omega (arith, placed)) (rw (around g.serves) at heap) (rw (around g.serves) at c) in
      let there =
        mark-Chain done.memory first (front g.serves) (region (p - 32) (raised.size + 32) false)
          (back g.serves) false done.heap done.represents in
      record {
        memory = done.memory;
        regions = front g.serves ++ region (p - 32) (raised.size + 32) false ∷ back g.serves;
        returns = done.returns;
        represents = done.represents;
        heap = done.heap;
        used = used_after ∙ sym used_before;
        refuses =
            raised.provides (p - 32) done.memory
            ∙ provide_refuses done.memory (region (p - 32) (raised.size + 32) false) there.next
                raised.size raised.exponent there.here raised.request
                (can_hold_freed (p - 32) raised.size (2 ^ raised.exponent));
      }
