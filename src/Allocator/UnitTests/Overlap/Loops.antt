-- ===== src/Allocator/UnitTests/Overlap/Loops.antt =====
-- The loops of the test over a list of layouts.
use osdev_hikalium.Prelude.{
  ℕ, zero, suc, ◌+◌, ◌%◌, ◌^◌, ◌≤◌, ◌<◌, ◌≡◌, refl, sym, ap, ◌∙◌, ◌==◌, true, Option, some, List,
  [], ◌∷◌, ◌++◌, append_assoc, append-nil, All, Any-imp, length, arith,
}
use osdev_hikalium.Prelude.Usize.{Outcome, ok}
use osdev_hikalium.Allocator.FirstFit.{Layout}
use osdev_hikalium.Allocator.Layouts.{IsLayout}
use osdev_hikalium.Allocator.Room.{demand}
use osdev_hikalium.Allocator.UnitTests.Overlap.{
  Ram, check_bytes, alloc_all, check_all, dealloc_even, alloc_even,
}
use osdev_hikalium.Allocator.UnitTests.Overlap.Blocks.{Filled, IsLive, Shows}
use osdev_hikalium.Allocator.UnitTests.Overlap.Live.{alloc_filled-Adds, dealloc_at-IsLive}

-- The block of an index.
abbrev pub filled_at : ℕ → Layout → ℕ → Filled
filled_at i layout p = record {
  block = record { pointer = p; layout = layout };
  value = some (i % 2 ^ 8);
}

-- The blocks of all indices from i on, and those that dealloc_even leaves.
abbrev pub all_filled : ℕ → List Layout → List ℕ → List Filled
all_filled i (layout ∷ layouts) (p ∷ ps) = filled_at i layout p ∷ all_filled (i + 1) layouts ps
all_filled i _ _ = []

abbrev pub odd_filled : ℕ → List Layout → List ℕ → List Filled
odd_filled i (layout ∷ other ∷ layouts) (p ∷ q ∷ ps) =
    filled_at (i + 1) other q ∷ odd_filled (i + 2) layouts ps
odd_filled i _ _ = []

abbrev pub demand_all : List Layout → ℕ
demand_all [] = 0
demand_all (layout ∷ layouts) = demand layout + demand_all layouts

abbrev pub AreLayouts : List Layout → Type 0
AreLayouts = All (λ layout. (j : ℕ) × IsLayout layout j)

abbrev pub pointers_of : List ℕ → List (Option ℕ)
pointers_of [] = []
pointers_of (p ∷ ps) = some p ∷ pointers_of ps

-- Live for less, and with the blocks written in another way.
pub IsLive-less :
    {first : Option ℕ} {fuel : ℕ} {fs gs : List Filled} {s : Ram} (n n' requests requests' : ℕ)
    → n ≤ n'
    → requests ≤ requests'
    → fs ≡ gs
    → IsLive first fuel n' requests' fs s
    → IsLive first fuel n requests gs s
IsLive-less {first} {fuel} {fs} {gs} {s} n n' requests requests' h k e live = rw (← e) (record {
  safe = live.safe;
  room = Any-imp live.safe.regions (λ r c. (c.0, omega (arith, c.1))) live.room;
  short = omega (arith, live.short);
  filled = live.filled;
})

-- `out` is the normal return of as many pointers as layouts, after which the blocks are live.
pub record Holds (first : Option ℕ) (fuel n requests : ℕ) (count : ℕ)
    (live_of : List ℕ → List Filled) (out : Outcome (List (Option ℕ) × Ram)) : Type 0 where
  pub pointers : List ℕ
  pub ram : Ram
  pub returns : out ≡ ok (pointers_of pointers, ram)
  pub as_many : length pointers ≡ count
  pub live : IsLive first fuel n requests (live_of pointers) ram

append_one : (fs gs : List Filled) (f : Filled) → (fs ++ f ∷ []) ++ gs ≡ fs ++ f ∷ gs
append_one fs gs f = append_assoc fs (f ∷ []) gs

module _ (first : Option ℕ) (fuel : ℕ) where
  pub alloc_all-Holds :
      (i n requests : ℕ) (layouts : List Layout) (fs : List Filled) (s : Ram)
      → AreLayouts layouts
      → IsLive first fuel (n + demand_all layouts) (requests + length layouts) fs s
      → Holds first fuel n requests
          (length layouts)
          (λ ps. fs ++ all_filled i layouts ps)
          (alloc_all fuel first i layouts s)
  unfolding alloc_all
  alloc_all-Holds i n requests [] fs s valid live = record {
    pointers = [];
    ram = s;
    returns = refl;
    as_many = refl;
    live = IsLive-less n _ requests _ (omega arith) (omega arith) (sym (append-nil fs)) live;
  }
  alloc_all-Holds i n requests (layout ∷ layouts) fs s valid live =
      let one =
        alloc_filled-Adds first fuel (n + demand_all layouts) (requests + length layouts) layout
          valid.0.0 i fs [] s valid.0.1
          (IsLive-less _ _ _ _ (omega arith) (omega arith) (sym (append-nil fs)) live) in
      let rest =
        alloc_all-Holds (i + 1) n requests layouts (fs ++ filled_at i layout one.pointer ∷ [])
          one.ram valid.1 one.live in
      record {
        pointers = one.pointer ∷ rest.pointers;
        ram = rest.ram;
        returns = rw (one.returns, rest.returns) refl;
        as_many = ap suc rest.as_many;
        live =
            IsLive-less n n requests requests (omega arith) (omega arith)
              (append_one fs (all_filled (i + 1) layouts rest.pointers)
                (filled_at i layout one.pointer))
              rest.live;
      }

  check_bytes-Shows :
      (p n v : ℕ) (s : Ram)
      → ((k : ℕ) → k < n → s.bytes (p + k) ≡ some v)
      → check_bytes p n v s ≡ ok tt
  check_bytes-Shows p zero v s h = refl
  check_bytes-Shows p (suc n) v s h =
      let start : s.bytes p ≡ s.bytes (p + 0) = ap s.bytes (omega arith) in
      let self : (v == v) ≡ true = ground arith in
      rw (start, h 0 (omega arith), self)
        (check_bytes-Shows (p + 1) n v s
          λ k lt. (let e : p + 1 + k ≡ p + (k + 1) = omega arith in rw e (h (k + 1) (omega arith))))

  pub check_all-returns :
      (i : ℕ) (layouts : List Layout) (ps : List ℕ) (s : Ram)
      → All (λ f. Shows s f.block f.value) (all_filled i layouts ps)
      → check_all fuel first i layouts (pointers_of ps) s ≡ ok tt
  unfolding check_all
  check_all-returns i [] ps s shows = refl
  check_all-returns i (layout ∷ layouts) [] s shows = refl
  check_all-returns i (layout ∷ layouts) (p ∷ ps) s shows =
      rw (check_bytes-Shows p layout.size (i % 2 ^ 8) s (λ k lt. (shows.0 k lt).0))
        (check_all-returns (i + 1) layouts ps s shows.1)

  two_later :
      (i : ℕ) (layouts : List Layout) (ps : List ℕ)
      → all_filled (i + 1 + 1) layouts ps ≡ all_filled (i + 2) layouts ps
  two_later i layouts ps = ap (λ (k : ℕ). all_filled k layouts ps) (omega arith)

  pub dealloc_even-leaves :
      (i n requests : ℕ) (layouts : List Layout) (ps : List ℕ) (fs : List Filled) (s : Ram)
      → length ps ≡ length layouts
      → IsLive first fuel n requests (fs ++ all_filled i layouts ps) s
      → (after : Ram) × (dealloc_even fuel first (pointers_of ps) s ≡ ok after)
        × IsLive first fuel n requests (fs ++ odd_filled i layouts ps) after
  unfolding dealloc_even
  dealloc_even-leaves i n requests [] [] fs s e live = (s, refl, live)
  dealloc_even-leaves i n requests [] (p ∷ ps) fs s e live = absurd (omega (arith, e))
  dealloc_even-leaves i n requests (l ∷ ls) [] fs s e live = absurd (omega (arith, e))
  dealloc_even-leaves i n requests (l ∷ []) (p ∷ []) fs s e live =
      dealloc_at-IsLive first fuel n requests fs [] (filled_at i l p) s live
  dealloc_even-leaves i n requests (l ∷ []) (p ∷ q ∷ ps) fs s e live = absurd (omega (arith, e))
  dealloc_even-leaves i n requests (l ∷ m ∷ ls) (p ∷ []) fs s e live = absurd (omega (arith, e))
  dealloc_even-leaves i n requests (l ∷ m ∷ ls) (p ∷ q ∷ ps) fs s e live =
      let x = filled_at (i + 1) m q in
      let one =
        dealloc_at-IsLive first fuel n requests fs (x ∷ all_filled (i + 1 + 1) ls ps)
          (filled_at i l p) s live in
      let again =
        IsLive-less n n requests requests (omega arith) (omega arith)
          (ap (λ (t : List Filled). fs ++ x ∷ t) (two_later i ls ps)
            ∙ sym (append_one fs (all_filled (i + 2) ls ps) x))
          one.2 in
      let rest =
        dealloc_even-leaves (i + 2) n requests ls ps (fs ++ x ∷ []) one.0 (omega (arith, e))
          again in
      (
        rest.0,
        rw one.1 rest.1,
        IsLive-less n n requests requests (omega arith) (omega arith)
            (append_one fs (odd_filled (i + 2) ls ps) x) rest.2,
      )

  pub alloc_even-Holds :
      (i n requests : ℕ) (layouts : List Layout) (ps : List ℕ) (fs : List Filled) (s : Ram)
      → length ps ≡ length layouts
      → AreLayouts layouts
      → IsLive first fuel
          (n + demand_all layouts)
          (requests + length layouts)
          (fs ++ odd_filled i layouts ps)
          s
      → Holds first fuel n requests
          (length layouts)
          (λ ps. fs ++ all_filled i layouts ps)
          (alloc_even fuel first i layouts (pointers_of ps) s)
  unfolding alloc_even
  alloc_even-Holds i n requests [] [] fs s e valid live = record {
    pointers = [];
    ram = s;
    returns = refl;
    as_many = refl;
    live = IsLive-less n _ requests _ (omega arith) (omega arith) refl live;
  }
  alloc_even-Holds i n requests [] (p ∷ ps) fs s e valid live = absurd (omega (arith, e))
  alloc_even-Holds i n requests (l ∷ ls) [] fs s e valid live = absurd (omega (arith, e))
  alloc_even-Holds i n requests (l ∷ []) (p ∷ []) fs s e valid live =
      let one =
        alloc_filled-Adds first fuel n requests l valid.0.0 i fs [] s valid.0.1
          (IsLive-less _ _ _ _ (omega arith) (omega arith) refl live) in
      record {
        pointers = one.pointer ∷ [];
        ram = one.ram;
        returns = rw one.returns refl;
        as_many = refl;
        live = one.live;
      }
  alloc_even-Holds i n requests (l ∷ []) (p ∷ q ∷ ps) fs s e valid live = absurd (omega (arith, e))
  alloc_even-Holds i n requests (l ∷ m ∷ ls) (p ∷ []) fs s e valid live = absurd (omega (arith, e))
  alloc_even-Holds i n requests (l ∷ m ∷ ls) (p ∷ q ∷ ps) fs s e valid live =
      let x = filled_at (i + 1) m q in
      let odd = odd_filled (i + 2) ls ps in
      let one =
        alloc_filled-Adds first fuel (n + demand_all ls) (requests + length ls) l valid.0.0 i fs
          (x ∷ odd) s valid.0.1 (IsLive-less _ _ _ _ (omega arith) (omega arith) refl live) in
      let y = filled_at i l one.pointer in
      let rest =
        alloc_even-Holds (i + 2) n requests ls ps (fs ++ y ∷ x ∷ []) one.ram (omega (arith, e))
          valid.1.1
          (IsLive-less _ _ _ _ (omega arith) (omega arith) (sym (append_assoc fs (y ∷ x ∷ []) odd))
            one.live) in
      record {
        pointers = one.pointer ∷ q ∷ rest.pointers;
        ram = rest.ram;
        returns = rw (one.returns, rest.returns) refl;
        as_many = omega (arith, rest.as_many);
        live =
            IsLive-less n n requests requests (omega arith) (omega arith)
              (append_assoc fs (y ∷ x ∷ []) (all_filled (i + 2) ls rest.pointers)
                ∙ ap (λ (t : List Filled). fs ++ y ∷ x ∷ t) (sym (two_later i ls rest.pointers)))
              rest.live;
      }
