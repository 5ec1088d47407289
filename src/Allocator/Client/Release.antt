-- ===== src/Allocator/Client/Release.antt =====
-- What giving a block back does to the blocks that callers hold.
use osdev_hikalium.Prelude.{
  ◌≢◌, ℕ, ◌-◌, ◌≤◌, ◌≡◌, refl, sym, ap, length, ◌∙◌, inl, inr, Bool, true, false, Option, List, [],
  ◌∷◌, ◌++◌, All, All-append, All-append_left, All-append_right, Any, Any-append_left,
  Any-append_right, Any-append-cases, Found, Any-Found, arith,
}
use osdev_hikalium.Prelude.Usize.{Outcome, ok}
use osdev_hikalium.Allocator.Memory.{Memory}
use osdev_hikalium.Allocator.FirstFit.{dealloc}
use osdev_hikalium.Allocator.Regions.{Region, region, Apart}
use osdev_hikalium.Allocator.Dealloc.{dealloc-Frees}
use osdev_hikalium.Allocator.Room.{HasRoom, HasRoom-mark, length_swap}
use osdev_hikalium.Allocator.Client.{Block, area, Serving, Separate, IsAligned, IsSafe}

All-remove :
    (P : Block → Type 0) (before after : List Block) (b : Block)
    → All P (before ++ b ∷ after)
    → P b × All P (before ++ after)
All-remove P before after b h =
    let rest = All-append_right P before (b ∷ after) h in
    (rest.0, All-append P before after (All-append_left P before (b ∷ after) h) rest.1)

pub Separate-remove :
    (before after : List Block) (b : Block)
    → Separate (before ++ b ∷ after)
    → All (λ c. Apart (area b) (area c)) (before ++ after) × Separate (before ++ after)
Separate-remove [] after b h = h
Separate-remove (c ∷ before) after b h =
    let rest = Separate-remove before after b h.1 in
    let apart = All-remove (λ x. Apart (area c) (area x)) before after b h.0 in
    ((ground (arith, apart.0), rest.0), (apart.1, rest.1))

region_eta :
    (r : Region) (a : ℕ) (b : Bool) → r.start ≡ a → r.is_allocated ≡ b → r ≡ region a r.size b
region_eta r a b e f = rw (← e, ← f) refl

-- The regions of the other blocks stay.
Serving_other :
    (b c : Block) (n : ℕ) (front back : List Region)
    → 32 ≤ b.pointer
    → Apart (area b) (area c)
    → Any (Serving c) (front ++ region (b.pointer - 32) n true ∷ back)
    → Any (Serving c) (front ++ region (b.pointer - 32) n false ∷ back)
Serving_other b c n front back low apart h = elim (Any-append-cases (Serving c) front _ h) [
  | inl l ↦ Any-append_left (Serving c) front _ l
  | inr (inl same) ↦ absurd (omega (arith, apart, same, low))
  | inr (inr r) ↦ Any-append_right (Serving c) front _ (inr r)
]

-- A region that starts at an address and has at most n bytes.
abbrev pub AtMost : ℕ → ℕ → Region → Type 0
AtMost a n r = (r.start ≡ a) × (r.size ≤ n)

AtMost-mark :
    (a n start size : ℕ) (xs ys : List Region)
    → Any (AtMost a n) (xs ++ region start size true ∷ ys)
    → Any (AtMost a n) (xs ++ region start size false ∷ ys)
AtMost-mark a n start size xs ys h = elim (Any-append-cases (AtMost a n) xs _ h) [
  | inl l ↦ Any-append_left (AtMost a n) xs _ l
  | inr (inl c) ↦ Any-append_right (AtMost a n) xs _ (inl c)
  | inr (inr r) ↦ Any-append_right (AtMost a n) xs _ (inr r)
]

-- `out` is a normal return that leaves the blocks `bs` safe, and the free regions as they are.
pub record Keeps (first : Option ℕ) (m : Memory) (p : ℕ) (rs : List Region) (bs : List Block)
    (out : Outcome (Unit {0} × Memory)) : Type 0 where
  pub memory : Memory
  pub returns : out ≡ ok (tt, memory)
  pub safe : IsSafe first (record { memory = memory; blocks = bs })
  pub room : (n : ℕ) → Any (HasRoom n) rs → Any (HasRoom n) safe.regions
  pub as_many : length safe.regions ≡ length rs
  pub elsewhere : (q : ℕ) → q ≢ p - 32 → memory q ≡ m q
  pub no_larger : (a n : ℕ) → Any (AtMost a n) rs → Any (AtMost a n) safe.regions

module _ (first : Option ℕ) (m : Memory) (before after : List Block) (b : Block)
    (safe : IsSafe first (record { memory = m; blocks = before ++ b ∷ after })) where
  held : Any (Serving b) safe.regions × All (λ c. Any (Serving c) safe.regions) (before ++ after)
  held = All-remove (λ c. Any (Serving c) safe.regions) before after b safe.served

  found : Found (Serving b) safe.regions
  found = Any-Found (Serving b) safe.regions held.0

  abbrev used : Region
  used = region (b.pointer - 32) found.item.size true

  stands : safe.regions ≡ found.before ++ used ∷ found.after
  stands =
      found.stands ∙ (rw (← (region_eta found.item (b.pointer - 32) true found.has.0 found.has.1)))

  pub dealloc-Keeps : Keeps first m b.pointer safe.regions (before ++ after) (dealloc b.pointer m)
  dealloc-Keeps =
      let done =
        dealloc-Frees m first found.before found.after b.pointer found.item.size found.has.3
          (rw stands at safe.heap) (rw stands at safe.represents) in
      let others = Separate-remove before after b safe.separate in
      record {
        memory = done.memory;
        returns = done.returns;
        safe = record {
          regions = found.before ++ region (b.pointer - 32) found.item.size false ∷ found.after;
          represents = done.represents;
          heap = done.heap;
          served = still (before ++ after) others.0 held.1;
          separate = others.1;
          aligned = (All-remove IsAligned before after b safe.aligned).1;
        };
        room = λ n h.
            HasRoom-mark n (b.pointer - 32) found.item.size found.before found.after
              (rw stands at h);
        elsewhere = done.elsewhere;
        no_larger = λ a n h.
            AtMost-mark a n (b.pointer - 32) found.item.size found.before found.after
              (rw stands at h);
        as_many = sym (ap length stands ∙ length_swap found.before found.after _ _);
      }
    where
      still :
          (bs : List Block)
          → All (λ c. Apart (area b) (area c)) bs
          → All (λ c. Any (Serving c) safe.regions) bs
          → All
              (λ c.
                Any
                  (Serving c)
                  (found.before ++ region (b.pointer - 32) found.item.size false ∷ found.after))
              bs
      still [] apart served = tt
      still (c ∷ bs) apart served = (
        Serving_other b c found.item.size found.before found.after found.has.3 apart.0
            (rw stands at served.0),
        still bs apart.1 served.1,
      )
