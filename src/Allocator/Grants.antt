-- ===== src/Allocator/Grants.antt =====
-- What first fit promises of the region list: which region it takes, and what becomes of it.
use osdev_hikalium.Prelude.{
  ℕ, ◌+◌, ◌-◌, ◌*◌, ◌%◌, ◌^◌, ◌≤◌, ◌<◌, ◌≡◌, refl, ◌∙◌, ap, sym, append_assoc, Bool-cases, inl, inr,
  true, false, Option, none, some, List, [], ◌∷◌, ◌++◌, All, All-append, All-imp, arith,
}
use native.Mathlib.Nat.{mul-mod_left, lt-div-mul-add}
use osdev_hikalium.Prelude.Bits.{pow_le_pow, pow-mul-pow}
use osdev_hikalium.Allocator.Regions.{
  Region, region, end_of, area_addr, Apart, IsHeap, split, can_hold, padding_of, skip, first_fit,
  first_fit-skip, first_fit-split,
}
use osdev_hikalium.Allocator.Provide.{IsPlaced}
use osdev_hikalium.Allocator.Request.{IsRequest, area-IsPlaced}
use osdev_hikalium.Allocator.Pieces.{
  Within, Within-Apart, IsHeap-middle, IsHeap-replace, split-Within, split-IsHeap,
}

-- The area at `addr` came from the first region that can hold the request, which was split.
pub record Serves (size k : ℕ) (rs : List Region) (addr : ℕ) (rs' : List Region) : Type 0 where
  pub before : List Region
  pub chosen : Region
  pub after : List Region
  pub was : rs ≡ before ++ chosen ∷ after
  pub becomes : rs' ≡ before ++ (split chosen addr size ++ after)
  pub passed_over : All (λ r. can_hold r size (2 ^ k) ≡ false) before
  pub holds : can_hold chosen size (2 ^ k) ≡ true
  pub placed : IsPlaced chosen size addr
  pub multiple : ℕ
  pub aligned : addr ≡ multiple * 2 ^ k
  pub highest : end_of chosen < addr + size + 2 ^ k

-- The regions around a granted area.
module _ {size k addr : ℕ} {rs rs' : List Region} (s : Serves size k rs addr rs') where
  abbrev pub front : List Region
  front = s.before ++ region s.chosen.start (addr - 32 - s.chosen.start) false ∷ []

  abbrev pub back : List Region
  back = padding_of s.chosen (addr + size) ++ s.after

  pub around : rs' ≡ front ++ region (addr - 32) (size + 32) true ∷ back
  around = s.becomes ∙ sym (append_assoc s.before _ _)

-- The answer of first fit: an area, or that no region can hold the request.
abbrev pub Answers : ℕ → ℕ → List Region → Option (ℕ × List Region) → Type 0
Answers size k rs none = All (λ r. can_hold r size (2 ^ k) ≡ false) rs
Answers size k rs (some (addr, rs')) = Serves size k rs addr rs'

area_addr_highest :
    (r : Region) (size align : ℕ)
    → 1 ≤ align
    → size ≤ end_of r
    → end_of r < area_addr r size align + size + align
area_addr_highest r size align pos h =
    omega (arith, lt-div-mul-add {a = end_of r - size} {b = align} pos)

module _ (size k : ℕ) where
  Answers-skip :
      (r : Region) (rs : List Region) (result : Option (ℕ × List Region))
      → can_hold r size (2 ^ k) ≡ false
      → Answers size k rs result
      → Answers size k (r ∷ rs) (skip r result)
  Answers-skip r rs none refused a = (refused, a)
  Answers-skip r rs (some (addr, rs')) refused a = record {
    before = r ∷ a.before;
    chosen = a.chosen;
    after = a.after;
    was = ap (λ (t : List Region). r ∷ t) a.was;
    becomes = ap (λ (t : List Region). r ∷ t) a.becomes;
    passed_over = (refused, a.passed_over);
    holds = a.holds;
    placed = a.placed;
    multiple = a.multiple;
    aligned = a.aligned;
    highest = a.highest;
  }

  pub first_fit-Answers :
      IsRequest size k → (rs : List Region) → Answers size k rs (first_fit size (2 ^ k) rs)
  first_fit-Answers q [] = unfold first_fit in tt
  first_fit-Answers q (r ∷ rs) = elim (Bool-cases (can_hold r size (2 ^ k))) [
    | inl chosen ↦ rw (first_fit-split size (2 ^ k) r rs chosen) (record {
      before = [];
      chosen = r;
      after = rs;
      was = refl;
      becomes = refl;
      passed_over = tt;
      holds = chosen;
      placed = area-IsPlaced r size k q.wide (pow_le_pow 0 k (omega arith)) (ground arith);
      multiple = _;
      aligned = refl;
      highest = area_addr_highest r size (2 ^ k) (pow_le_pow 0 k (omega arith)) (ground arith);
    })
    | inr refused ↦
        rw (first_fit-skip size (2 ^ k) r rs refused)
          (Answers-skip r rs (first_fit size (2 ^ k) rs) refused (first_fit-Answers q rs))
  ]

module _ (size k addr : ℕ) (rs rs' : List Region) (q : IsRequest size k) (heap : IsHeap rs)
    (s : Serves size k rs addr rs') where
  IsHeap-split : IsHeap (s.before ++ s.chosen ∷ s.after)
  IsHeap-split = rw s.was at heap

  chosen-IsHeap : All (λ x. Apart x s.chosen) s.before × IsHeap (s.chosen ∷ s.after)
  chosen-IsHeap = IsHeap-middle s.chosen s.before s.after IsHeap-split

  -- The invariant is kept.
  pub Serves-IsHeap : IsHeap rs'
  Serves-IsHeap = rw s.becomes (
      IsHeap-replace s.chosen s.before (split s.chosen addr size) s.after
        (split-Within s.chosen addr size chosen-IsHeap.1.0 s.placed q.size_aligned)
        (split-IsHeap s.chosen addr size chosen-IsHeap.1.0 s.placed q.size_aligned) IsHeap-split)

  area-Within : Within s.chosen (region (addr - 32) (size + 32) true)
  area-Within = omega (arith, s.placed)

  -- The granted area, its header included, is apart from every region in use.
  pub Serves-Apart :
      All (λ r. r.is_allocated ≡ true → Apart (region (addr - 32) (size + 32) true) r) rs
  Serves-Apart = rw s.was (
      All-append _ s.before (s.chosen ∷ s.after)
        (All-imp s.before
          (λ x a _.
            Within-Apart x s.chosen (region (addr - 32) (size + 32) true) area-Within
              (ground arith))
          chosen-IsHeap.0)
        (
          λ used. absurd (chosen_free used),
          All-imp s.after
              (λ x a _. Within-Apart x s.chosen (region (addr - 32) (size + 32) true) area-Within a)
              chosen-IsHeap.1.1,
        ))
    where
      chosen_free : ¬ (s.chosen.is_allocated ≡ true)
      chosen_free used = ground (arith, s.holds)

-- A multiple of 2 ^ k is one of 2 ^ j for a smaller j.
pub mul-pow-mod-pow : (q j k : ℕ) → j ≤ k → q * 2 ^ k % 2 ^ j ≡ 0
mul-pow-mod-pow q j k h =
    let e : k - j + j ≡ k = omega arith in
    let split : 2 ^ (k - j) * 2 ^ j ≡ 2 ^ k = pow-mul-pow (k - j) j ∙ (rw e) in
    let regroup : q * 2 ^ k ≡ q * 2 ^ (k - j) * 2 ^ j =
      omega (arith, ap (λ (t : ℕ). q * t) split) in
    rw regroup (mul-mod_left (q * 2 ^ (k - j)) (2 ^ j))
