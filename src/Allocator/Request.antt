-- ===== src/Allocator/Request.antt =====
-- `provide` on a request that it has raised to its sizes: a region that can hold it is split, any
-- other is left as it is.
use osdev_hikalium.Prelude.{
  ℕ, ◌+◌, ◌-◌, ◌/◌, ◌^◌, ◌%◌, ◌≤◌, ◌<◌, ◌≡◌, ◌∙◌, true, false, Option, none, some, arith,
}
use osdev_hikalium.Prelude.Bits.{pow_le_pow}
use osdev_hikalium.Prelude.Usize.{ok, word_mod}
use osdev_hikalium.Allocator.Memory.{Memory}
use osdev_hikalium.Allocator.Header.{can_provide, carve, provide_rounded}
use osdev_hikalium.Allocator.Regions.{Region, end_of, IsSound, area_addr, can_hold}
use osdev_hikalium.Allocator.Chain.{header}
use osdev_hikalium.Allocator.Address.{allocated_addr_lem, pow-mod_32}
use osdev_hikalium.Allocator.Provide.{IsPlaced, Splits, carves}

pub area-IsPlaced :
    (r : Region) (size k : ℕ)
    → 5 ≤ k
    → 0 < 2 ^ k
    → size + 64 + 2 ^ k ≤ r.size
    → IsPlaced r size (area_addr r size (2 ^ k))
area-IsPlaced r size k hk pos fits = record {
  aligned = pow-mod_32 ((end_of r - size) / 2 ^ k) k hk;
  above = grind arith;
  below = grind arith;
}

-- The request in the form that reaches `provide_rounded`: the alignment is `2 ^ k`, and the test of
-- `can_provide` does not overflow.
pub record IsRequest (size k : ℕ) : Type 0 where
  pub wide : 5 ≤ k
  pub narrow : k ≤ 63
  pub least : 32 ≤ size
  pub size_aligned : size % 32 ≡ 0
  pub no_overflow : size + 64 + 2 ^ k < word_mod

module _ (m : Memory) (r : Region) (next : Option ℕ) (size k : ℕ)
    (at_self : m r.start ≡ some (header next r.size r.is_allocated))
    (request : IsRequest size k) where
  pub provide_refuses :
      can_hold r size (2 ^ k) ≡ false → provide_rounded r.start size (2 ^ k) m ≡ ok (none, m)
  unfolding provide_rounded can_provide
  provide_refuses no_room = ground arith

  provide_accepts :
      can_hold r size (2 ^ k) ≡ true
      → provide_rounded r.start size (2 ^ k) m ≡ carve r.start size (2 ^ k) m
  unfolding provide_rounded can_provide
  provide_accepts room = ground arith

  pub provide-Splits :
      can_hold r size (2 ^ k) ≡ true
      → IsSound r
      → Splits m r next size (area_addr r size (2 ^ k)) (provide_rounded r.start size (2 ^ k) m)
  provide-Splits room sound =
      let fits : size + 64 + 2 ^ k ≤ r.size = ground arith in
      let free : m r.start ≡ some (header next r.size false) = ground arith in
      let done =
        carves m r next size (area_addr r size (2 ^ k)) (2 ^ k) free sound.in_space
          (area-IsPlaced r size k request.wide (pow_le_pow 0 k (omega arith)) fits)
          (allocated_addr_lem r.start size k (header next r.size false) request.narrow (omega arith)
            sound.in_space) in
      record {
        memory = done.memory;
        returns = provide_accepts room ∙ done.returns;
        represents = done.represents;
        outside = done.outside;
      }
