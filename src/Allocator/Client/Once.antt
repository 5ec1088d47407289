-- ===== src/Allocator/Client/Once.antt =====
-- A pointer is granted for a layout at most once: regions never grow and are never joined.
use osdev_hikalium.Prelude.{
  ℕ, ◌+◌, ◌-◌, ◌^◌, ◌<◌, ◌≡◌, ◌≢◌, refl, sym, ◌∙◌, ap, inl, inr, Option, none, some, List, [], ◌∷◌,
  ◌++◌, Any, Any-append_left, Any-append_right, Any-append-cases, Any-All, arith,
}
use osdev_hikalium.Prelude.Usize.{ok}
use osdev_hikalium.Allocator.Memory.{Memory}
use osdev_hikalium.Allocator.Pow2.{round_up_to_nearest_pow2_least}
use osdev_hikalium.Allocator.FirstFit.{Layout, alloc_with_options, dealloc}
use osdev_hikalium.Allocator.Regions.{Region, split, IsHeap}
use osdev_hikalium.Allocator.Chain.{Chain, header}
use osdev_hikalium.Allocator.Layouts.{IsLayout, Raises}
use osdev_hikalium.Allocator.Pieces.{IsHeap-middle}
use osdev_hikalium.Allocator.Grants.{Serves, front, around}
use osdev_hikalium.Allocator.Alloc.{Answered}
use osdev_hikalium.Allocator.Client.{
  Block, System, Step, Reach, granted, refused, released, here, next, IsSafe,
}
use osdev_hikalium.Allocator.Client.Release.{AtMost, dealloc-Keeps}
use osdev_hikalium.Allocator.Client.History.{ok_injective, returned-Allocates, Step-IsSafe}

-- The headers determine the regions.
Chain-unique :
    (m : Memory) (first : Option ℕ) (rs rs' : List Region)
    → Chain m first rs
    → Chain m first rs'
    → rs ≡ rs'
Chain-unique m first [] [] c d = refl
Chain-unique m first [] (r ∷ rs') c d = absurd (cc (c, d.0))
Chain-unique m first (r ∷ rs) [] c d = absurd (cc (c.0, d))
Chain-unique m first (r ∷ rs) (s ∷ rs') c d =
    let start : r.start ≡ s.start = cc (c.0, d.0) in
    let found : m r.start ≡ some (header d.1.0 s.size s.is_allocated) = rw start d.1.1 in
    let both : some (header c.1.0 r.size r.is_allocated)
        ≡ some (header d.1.0 s.size s.is_allocated) =
      sym c.1.1 ∙ found in
    let link : c.1.0 ≡ d.1.0 = cc both in
    let same : r ≡ s = cc (both, start) in
    rw same (ap (λ (t : List Region). s ∷ t) (Chain-unique m c.1.0 rs rs' c.1.2 (rw link d.1.2)))

-- A grant makes no region larger.
AtMost-grant :
    (a n size k p : ℕ) (rs rs' : List Region)
    → Serves size k rs p rs'
    → Any (AtMost a n) rs
    → Any (AtMost a n) rs'
AtMost-grant a n size k p rs rs' s h =
    rw s.becomes
      (elim (Any-append-cases (AtMost a n) s.before (s.chosen ∷ s.after) (rw s.was at h)) [
        | inl l ↦ Any-append_left (AtMost a n) s.before _ l
        | inr (inl c) ↦
            Any-append_right (AtMost a n) s.before _ (inl (c.0, omega (arith, c.1, s.placed)))
        | inr (inr r) ↦
            Any-append_right (AtMost a n) s.before _
              (Any-append_right (AtMost a n) (split s.chosen p size) s.after r)
      ])

AtMost-answer :
    (a n size k : ℕ) (layout : Layout) (rs rs' : List Region) (result : Option ℕ)
    → Answered layout size k rs result rs'
    → Any (AtMost a n) rs
    → Any (AtMost a n) rs'
AtMost-answer a n size k layout rs rs' none answer h = rw answer.0 h
AtMost-answer a n size k layout rs rs' (some p) answer h =
    AtMost-grant a n size k p rs rs' answer.serves h

-- A region that is no larger than the one of a pointer cannot be where the pointer is cut from.
no_grant :
    (size k p : ℕ) (rs rs' : List Region)
    → IsHeap rs
    → Serves size k rs p rs'
    → ¬ Any (AtMost (p - 32) (size + 32)) rs
no_grant size k p rs rs' heap s h =
    let around_chosen = IsHeap-middle s.chosen s.before s.after (rw s.was at heap) in
    elim (Any-append-cases (AtMost (p - 32) (size + 32)) s.before (s.chosen ∷ s.after)
      (rw s.was at h)) [
        | inl l ↦
            let no : p < p =
              Any-All s.before (λ x apart most. omega (arith, apart, most, s.placed))
                around_chosen.0 l in
            omega (arith, no)
        | inr (inl c) ↦ ground (arith, c, s.holds)
        | inr (inr r) ↦
            let no : p < p =
              Any-All s.after (λ x apart most. omega (arith, apart, most, s.placed))
                around_chosen.1.1 r in
            omega (arith, no)
      ]

-- The heap is safe, and the region at an address has at most n bytes.
record IsCapped (first : Option ℕ) (a n : ℕ) (s : System) : Type 0 where
  safe : IsSafe first s
  capped : Any (AtMost a n) safe.regions

recap :
    (first : Option ℕ) (a n : ℕ) (s : System) (rs : List Region)
    → IsSafe first s
    → Chain s.memory first rs
    → Any (AtMost a n) rs
    → IsCapped first a n s
recap first a n s rs safe c h = record {
  safe = safe;
  capped = rw (Chain-unique s.memory first safe.regions rs safe.represents c) h;
}

module _ (first : Option ℕ) (a n : ℕ) (s t : System) where
  requested-IsCapped :
      (fuel j : ℕ) (layout : Layout) (result : Option ℕ)
      → IsLayout layout j
      → alloc_with_options fuel first layout s.memory ≡ ok (result, t.memory)
      → IsCapped first a n s
      → IsSafe first t
      → IsCapped first a n t
  requested-IsCapped fuel j layout result valid e cap safe =
      let r =
        returned-Allocates first fuel j layout s.memory cap.safe.regions _ valid cap.safe.heap
          cap.safe.represents e in
      recap first a n t r.regions safe
        (rw (← (ap (λ x. x.1) (ok_injective r.returns))) at r.represents)
        (AtMost-answer a n r.raised.size r.raised.exponent layout cap.safe.regions r.regions
          r.result r.answered cap.capped)

  released-IsCapped :
      (before after : List Block) (b : Block)
      → s.blocks ≡ before ++ b ∷ after
      → dealloc b.pointer s.memory ≡ ok (tt, t.memory)
      → (bs : List Block) → bs ≡ before ++ b ∷ after
      → (safe : IsSafe first (record { memory = s.memory; blocks = bs }))
      → Any (AtMost a n) safe.regions
      → IsSafe first t
      → IsCapped first a n t
  released-IsCapped before after b was e bs same held capped safe =
      let again : IsSafe first (record { memory = s.memory; blocks = before ++ b ∷ after }) =
        rw same at held in
      let capped' : Any (AtMost a n) again.regions =
        rw (Chain-unique s.memory first again.regions held.regions again.represents held.represents)
          capped in
      let kept = dealloc-Keeps first s.memory before after b again in
      let memory : t.memory ≡ kept.memory = ap (λ x. x.1) (ok_injective (sym e ∙ kept.returns)) in
      recap first a n t kept.safe.regions safe (rw memory kept.safe.represents)
        (kept.no_larger a n capped')

  Step-IsCapped : Step first s t → IsCapped first a n s → IsCapped first a n t
  Step-IsCapped (granted fuel j layout p valid e blocks) cap =
      requested-IsCapped fuel j layout (some p) valid e cap
        (Step-IsSafe first s t (granted fuel j layout p valid e blocks) cap.safe)
  Step-IsCapped (refused fuel j layout valid e blocks) cap =
      requested-IsCapped fuel j layout none valid e cap
        (Step-IsSafe first s t (refused fuel j layout valid e blocks) cap.safe)
  Step-IsCapped (released before after b was e blocks) cap =
      released-IsCapped before after b was e s.blocks was cap.safe cap.capped
        (Step-IsSafe first s t (released before after b was e blocks) cap.safe)

Reach-IsCapped :
    (first : Option ℕ) (a n : ℕ) (s t : System)
    → IsCapped first a n s
    → Reach first s t
    → IsCapped first a n t
Reach-IsCapped first a n s t cap here = cap
Reach-IsCapped first a n s t cap (next r step) =
    Step-IsCapped first a n _ t step (Reach-IsCapped first a n s _ cap r)

Answered-AtMost :
    (size k p : ℕ) (layout : Layout) (rs rs' : List Region) (result : Option ℕ)
    → Answered layout size k rs result rs'
    → result ≡ some p
    → Any (AtMost (p - 32) (size + 32)) rs'
Answered-AtMost size k p layout rs rs' none answer e = absurd (cc e)
Answered-AtMost size k p layout rs rs' (some q) answer e =
    let same : q ≡ p = cc e in
    rw (← same) (
      rw (around answer.serves) (
        Any-append_right (AtMost (q - 32) (size + 32)) (front answer.serves) _
          (inl (refl, omega arith))))

Answered-refuses :
    (size k p : ℕ) (layout : Layout) (rs rs' : List Region) (result : Option ℕ)
    → IsHeap rs
    → Answered layout size k rs result rs'
    → Any (AtMost (p - 32) (size + 32)) rs
    → result ≢ some p
Answered-refuses size k p layout rs rs' none heap answer h e = absurd (cc e)
Answered-refuses size k p layout rs rs' (some q) heap answer h e =
    let same : q ≡ p = cc e in no_grant size k p rs rs' heap (rw same at answer.serves) h

same_size :
    (layout : Layout) (j : ℕ) → IsLayout layout j → (r r' : Raises layout j) → r.size ≡ r'.size
same_size layout j valid r r' =
    let up =
      round_up_to_nearest_pow2_least layout.size valid.nonzero (omega (arith, valid.in_isize)) in
    r.exact (2 ^ up.0) up.1 ∙ sym (r'.exact (2 ^ up.0) up.1)

-- On a heap that is safe, a pointer that alloc_with_options grants for a valid layout is never
-- granted for that layout again, whatever valid requests and releases come in between, in any
-- fuel: an area that was given back does not serve its own layout again.
pub Reach-grants_once :
    (first : Option ℕ) (s t u : System) (fuel fuel' j p q : ℕ) (layout : Layout) (m : Memory)
    → IsSafe first s
    → IsLayout layout j
    → alloc_with_options fuel first layout s.memory ≡ ok (some p, t.memory)
    → t.blocks ≡ record { pointer = p; layout = layout } ∷ s.blocks
    → Reach first t u
    → alloc_with_options fuel' first layout u.memory ≡ ok (some q, m)
    → q ≢ p
Reach-grants_once first s t u fuel fuel' j p q layout m safe valid e blocks reach e' same =
    let a =
      returned-Allocates first fuel j layout s.memory safe.regions _ valid safe.heap safe.represents
        e in
    let result : a.result ≡ some p = sym (ap (λ x. x.0) (ok_injective a.returns)) in
    let start =
      recap first (p - 32) (a.raised.size + 32) t a.regions
        (Step-IsSafe first s t (granted fuel j layout p valid e blocks) safe)
        (rw (← (ap (λ x. x.1) (ok_injective a.returns))) at a.represents)
        (Answered-AtMost a.raised.size a.raised.exponent p layout safe.regions a.regions a.result
          a.answered result) in
    let end = Reach-IsCapped first (p - 32) (a.raised.size + 32) t u start reach in
    let b =
      returned-Allocates first fuel' j layout u.memory end.safe.regions _ valid end.safe.heap
        end.safe.represents e' in
    let result' : b.result ≡ some q = sym (ap (λ x. x.0) (ok_injective b.returns)) in
    let size : a.raised.size ≡ b.raised.size = same_size layout j valid a.raised b.raised in
    Answered-refuses b.raised.size b.raised.exponent p layout end.safe.regions b.regions b.result
      end.safe.heap b.answered (rw size at end.capped) (rw same at result')
