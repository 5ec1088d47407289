-- ===== src/Allocator/Provide.antt =====
-- `provide` splits a free region that is large enough, and leaves any other as it is.
use osdev_hikalium.Prelude.{
  ℕ, ◌+◌, ◌-◌, ◌%◌, ◌≤◌, ◌<◌, ◌≡◌, refl, inl, inr, true, false, Option, none, some, List, [], ◌∷◌,
  ◌++◌, ◌==◌, arith, Bool-cases,
}
use osdev_hikalium.Prelude.Usize.{Outcome, ok, word_mod}
use osdev_hikalium.Allocator.Memory.{Memory, update}
use osdev_hikalium.Allocator.Header.{carve, allocated_addr}
use osdev_hikalium.Allocator.Regions.{Region, region, end_of, split, padding_of}
use osdev_hikalium.Allocator.Chain.{header, Chain, SameOutside}
use osdev_hikalium.Allocator.Carve.{
  put_allocated_lem, put_padding_none, put_padding_some, shrink_lem, allocated_memory,
  padded_memory,
}

-- Where the area lies when a region can hold it.
pub record IsPlaced (r : Region) (size addr : ℕ) : Type 0 where
  pub aligned : addr % 32 ≡ 0
  pub above : r.start + 64 < addr
  pub below : addr + size ≤ end_of r

-- `out` is a normal return of the area's address that split `r` in memory.
pub record Splits (m : Memory) (r : Region) (next : Option ℕ) (size addr : ℕ)
    (out : Outcome (Option ℕ × Memory)) : Type 0 where
  pub memory : Memory
  pub returns : out ≡ ok (some addr, memory)
  pub represents :
      (rest : List Region)
      → Chain memory next rest
      → Chain memory (some r.start) (split r addr size ++ rest)
  pub outside : SameOutside r.start (end_of r) m memory

padding_none : (r : Region) (a : ℕ) → a ≡ end_of r → padding_of r a ≡ []
padding_none r a e = ground arith

padding_some :
    (r : Region) (a : ℕ) → a < end_of r → padding_of r a ≡ region a (end_of r - a) false ∷ []
padding_some r a h = ground arith

module _ (m : Memory) (r : Region) (next : Option ℕ) (size addr align : ℕ)
    (at_self : m r.start ≡ some (header next r.size false)) (space : end_of r < word_mod)
    (placed : IsPlaced r size addr)
    (address : allocated_addr r.start (header next r.size false) size align ≡ ok addr) where
  abbrev place : ℕ
  place = addr - 32

  -- The memory after `put_allocated`, with the region's own header cut off from its successor.
  abbrev linked : Memory
  linked = allocated_memory m r.start place (header next r.size false) at_self size

  linked_self : linked r.start ≡ some (header none r.size false)
  linked_self = ground arith

  linked-place : linked place ≡ some (header next (size + 32) true)
  linked-place = ground arith

  shrunk : Memory → ℕ → Memory
  shrunk padded used = update padded r.start (header (some place) (r.size - used) false)

  carve_exact : addr + size ≡ end_of r → Splits m r next size addr (carve r.start size align m)
  unfolding carve shrunk
  carve_exact e = record {
    memory = shrunk linked (size + 32);
    returns = ground (
      arith,
      address,
      put_allocated_lem m r.start place (header next r.size false) at_self size,
      put_padding_none linked r.start place (header none r.size false) linked_self
          (header next (size + 32) true) linked-place (omega arith) (size + 32),
      shrink_lem linked r.start place (header none r.size false) linked_self (size + 32),
    );
    represents = λ rest c. (
      refl,
      (
        some place,
        ground arith,
        (refl, (next, ground arith, rw (padding_none r (addr + size) e) c)),
      ),
    );
    outside = λ q far. ground arith;
  }

  carve_padded : addr + size < end_of r → Splits m r next size addr (carve r.start size align m)
  unfolding carve shrunk
  carve_padded lt =
      let padded =
        padded_memory linked r.start place (header none r.size false) linked_self
          (header next (size + 32) true) linked-place space in
      let used = size + 32 + (end_of r - (addr + size)) in
      record {
        memory = shrunk padded used;
        returns = ground (
          arith,
          address,
          put_allocated_lem m r.start place (header next r.size false) at_self size,
          put_padding_some linked r.start place (header none r.size false) linked_self
              (header next (size + 32) true) linked-place space (size + 32),
          shrink_lem padded r.start place (header none r.size false) (ground arith) used,
        );
        represents = λ rest c. rw (padding_some r (addr + size) lt) (
          refl,
          (
            some place,
            ground arith,
            (refl, (some (addr + size), ground arith, (refl, (next, ground arith, c)))),
          ),
        );
        outside = λ q far. ground arith;
      }

  pub carves : Splits m r next size addr (carve r.start size align m)
  carves = elim (Bool-cases (addr + size == end_of r)) [
    | inl e ↦ carve_exact (ground arith)
    | inr e ↦ carve_padded (ground (arith, placed.below))
  ]
