-- ===== src/Allocator/UnitTests/Overlap.antt =====
-- The unit test `allocated_objects_have_no_overlap` of wasabi/src/allocator.rs. Its bytes and
-- the headers of the allocator share one memory. The vector of pointers is a list here; its storage is one
-- request of the libraries, for the layout of the parameter `vector`, that is given back at the end.
pub mod Writes
pub mod Blocks
pub mod Live
pub mod Loops
pub mod Passes
mod Example
use osdev_hikalium.Prelude.{
  ℕ, zero, suc, ◌+◌, ◌-◌, ◌%◌, ◌^◌, ◌==◌, Bool, true, false, ◌&&◌, leb, ltb, if◌then◌else◌, Option,
  none, some, List, [], ◌∷◌,
}
use osdev_hikalium.Prelude.Usize.{Outcome, ok, panic, fault, ◌>>=◌}
use osdev_hikalium.Allocator.Memory.{Header, Memory, header_size}
use osdev_hikalium.Allocator.FirstFit.{Layout, alloc_with_options, dealloc}
use osdev_hikalium.Allocator.UnitTests.{address, same}

-- The memory under the heap: the headers that stand in it, by address, and its bytes, of which `none`
-- is one that is not known. A header takes the 32 bytes from its address on.
pub record Ram : Type 0 where
  pub headers : Memory
  pub bytes : ℕ → Option ℕ

abbrev pub is_header : Option Header → Bool
is_header none = false
is_header (some h) = true

-- Whether a header starts less than n bytes before an address, or at it.
unfoldable pub covered : Memory → ℕ → ℕ → Bool
covered m a zero = false
covered m a (suc n) =
    let rest = covered m a n in
    if leb n a then (if is_header (m (a - n)) then true else rest) else rest

-- After a call of the allocator that leaves the headers `m`, the bytes under them are theirs.
abbrev pub after_call : Memory → Ram → Ram
after_call m s = record {
  headers = m;
  bytes = λ a. if covered m a header_size then none else s.bytes a;
}

-- A byte is written; a header that it lies in is no header any more.
abbrev pub write_byte : ℕ → ℕ → Ram → Ram
write_byte p v s = record {
  headers = λ q. if leb q p && ltb p (q + header_size) then none else s.headers q;
  bytes = λ a. if p == a then some v else s.bytes a;
}

-- `*pointer.add(k) = i as u8` for the n bytes from p on.
abbrev pub write_bytes : ℕ → ℕ → ℕ → Ram → Ram
write_bytes p zero v s = s
write_bytes p (suc n) v s = write_bytes (p + 1) n v (write_byte p v s)

-- The assertions on the n bytes from p on.
abbrev pub check_bytes : ℕ → ℕ → ℕ → Ram → Outcome (Unit {0})
check_bytes p zero v s = ok tt
check_bytes p (suc n) v s =
    let rest = check_bytes (p + 1) n v s in if same (s.bytes p) (some v) then rest else panic

-- The pairs of sizes and alignments.
abbrev pub allocations : List (ℕ × ℕ)
allocations =
    (128, 128)
    ∷ (32, 32)
    ∷ (8, 8)
    ∷ (16, 16)
    ∷ (6000, 64)
    ∷ (4, 4)
    ∷ (2, 2)
    ∷ (600000, 64)
    ∷ (64, 64)
    ∷ (1, 1)
    ∷ (6000, 64)
    ∷ (6000, 64)
    ∷ (6000, 64)
    ∷ (6000, 64)
    ∷ (6000, 64)
    ∷ (6000, 64)
    ∷ (3, 64)
    ∷ (3, 64)
    ∷ (3, 64)
    ∷ (3, 64)
    ∷ (3, 64)
    ∷ (3, 64)
    ∷ (3, 64)
    ∷ (3, 64)
    ∷ (3, 64)
    ∷ (3, 64)
    ∷ (6000, 64)
    ∷ (6000, 64)
    ∷ (600000, 64)
    ∷ (6000, 64)
    ∷ (60000, 64)
    ∷ (60000, 64)
    ∷ (60000, 64)
    ∷ (60000, 64)
    ∷ []

-- `unwrap`.
abbrev pub unwrap : {A : Type 0} → Option A → Outcome A
unwrap none = panic
unwrap (some a) = ok a

unfoldable pub build_layouts : (ℕ → ℕ → Option Layout) → List (ℕ × ℕ) → Outcome (List Layout)
build_layouts from_size_align [] = ok []
build_layouts from_size_align ((size, align) ∷ pairs) = do
  layout ← unwrap (from_size_align size align)
  layouts ← build_layouts from_size_align pairs
  ok (layout ∷ layouts)

module _ (fuel : ℕ) (first_header : Option ℕ) where
  -- The writes through a pointer; a write to null is undefined.
  abbrev pub fill : Layout → ℕ → Ram → Option ℕ → Memory → Outcome (Option ℕ × Ram)
  fill layout i s none m = if layout.size == 0 then ok (none, after_call m s) else fault
  fill layout i s (some p) m = ok (some p, write_bytes p layout.size (i % 2 ^ 8) (after_call m s))

  -- One pointer: the request, and the writes.
  unfoldable pub alloc_filled : Layout → ℕ → Ram → Outcome (Option ℕ × Ram)
  alloc_filled layout i s =
      alloc_with_options fuel first_header layout s.headers >>= λ got. fill layout i s got.0 got.1

  -- The first loop, from index i on.
  unfoldable pub alloc_all : ℕ → List Layout → Ram → Outcome (List (Option ℕ) × Ram)
  alloc_all i [] s = ok ([], s)
  alloc_all i (layout ∷ layouts) s = alloc_filled layout i s >>= λ got.
      (alloc_all (i + 1) layouts got.1 >>= λ rest. ok (got.0 ∷ rest.0, rest.1))

  -- The loops that read; reading from null is undefined.
  unfoldable pub check_all : ℕ → List Layout → List (Option ℕ) → Ram → Outcome (Unit {0})
  check_all i (layout ∷ layouts) (some p ∷ pointers) s =
      check_bytes p layout.size (i % 2 ^ 8) s >>= λ done. check_all (i + 1) layouts pointers s
  check_all i (layout ∷ layouts) (none ∷ pointers) s =
      let rest = check_all (i + 1) layouts pointers s in if layout.size == 0 then rest else fault
  check_all i _ _ s = ok tt

  abbrev pub dealloc_at : Option ℕ → Ram → Outcome Ram
  dealloc_at p s = dealloc (address p) s.headers >>= λ done. ok (after_call done.1 s)

  -- The loops over every second pair, `step_by(2)`.
  unfoldable pub dealloc_even : List (Option ℕ) → Ram → Outcome Ram
  dealloc_even [] s = ok s
  dealloc_even (p ∷ []) s = dealloc_at p s
  dealloc_even (p ∷ q ∷ pointers) s = dealloc_at p s >>= λ s. dealloc_even pointers s

  unfoldable pub alloc_even :
      ℕ → List Layout → List (Option ℕ) → Ram → Outcome (List (Option ℕ) × Ram)
  alloc_even i (layout ∷ other ∷ layouts) (p ∷ q ∷ pointers) s = alloc_filled layout i s >>= λ got.
      (alloc_even (i + 2) layouts pointers got.1 >>= λ rest. ok (got.0 ∷ q ∷ rest.0, rest.1))
  alloc_even i (layout ∷ []) (p ∷ []) s = alloc_filled layout i s >>= λ got. ok (got.0 ∷ [], got.1)
  alloc_even i _ pointers s = ok (pointers, s)

  -- The five loops.
  unfoldable pub no_overlap : List Layout → Ram → Outcome Ram
  no_overlap layouts s = alloc_all 0 layouts s >>= λ filled.
      (check_all 0 layouts filled.0 filled.1 >>= λ done.
      (dealloc_even filled.0 filled.1 >>= λ s.
      (alloc_even 0 layouts filled.0 s >>= λ again.
      (check_all 0 layouts again.0 again.1 >>= λ done. ok again.1))))

  -- `vec!` of null pointers. Where there is no memory, the libraries panic.
  abbrev pub hold : Layout → Ram → Option ℕ → Memory → Outcome (Option ℕ × Ram)
  hold vector s none m = panic
  hold vector s (some p) m = ok (some p, write_bytes p vector.size 0 (after_call m s))

  unfoldable pub alloc_vector : Layout → Ram → Outcome (Option ℕ × Ram)
  alloc_vector vector s =
      alloc_with_options fuel first_header vector s.headers >>= λ got. hold vector s got.0 got.1

  unfoldable pub allocated_objects_have_no_overlap :
      (ℕ → ℕ → Option Layout) → Layout → Ram → Outcome Ram
  allocated_objects_have_no_overlap from_size_align vector s =
      build_layouts from_size_align allocations >>= λ layouts.
      (alloc_vector vector s >>= λ held. (no_overlap layouts held.1 >>= λ s. dealloc_at held.0 s))
