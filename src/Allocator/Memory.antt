-- ===== src/Allocator/Memory.antt =====
-- The memory that the allocator of wasabi/src/allocator.rs manages, as the headers that it has
-- written, by address, and commands that read and write them. What a client writes into its own
-- area is not held here: the area is apart from every header, as `Allocator.Alloc` shows.
use osdev_hikalium.Prelude.{ℕ, Bool, false, Option, none, some, ◌==◌, if◌then◌else◌}
use osdev_hikalium.Prelude.Usize.{Outcome, ok, panic, fault, out_of_fuel}

-- A `Box<Header>` is the address of its header.
pub record Header : Type 0 where
  pub next_header : Option ℕ
  pub size : ℕ
  pub is_allocated : Bool
  pub reserved : ℕ

-- The size of a `Header` in bytes, as the source asserts.
abbrev pub header_size : ℕ
header_size = 32

abbrev pub Memory : Type 0
Memory = ℕ → Option Header

abbrev pub update : Memory → ℕ → Header → Memory
update m p h q = if p == q then some h else m q

abbrev pub Cmd : Type 0 → Type 0
Cmd A = Memory → Outcome (A × Memory)

abbrev pub pure : {A : Type 0} → A → Cmd A
pure a m = ok (a, m)

abbrev pub lift : {A : Type 0} → Outcome A → Cmd A
lift (ok a) m = ok (a, m)
lift panic m = panic
lift fault m = fault
lift out_of_fuel m = out_of_fuel

abbrev pub and_then : {A B : Type 0} → Outcome (A × Memory) → (A → Cmd B) → Outcome (B × Memory)
and_then (ok (a, m)) k = k a m
and_then panic k = panic
and_then fault k = fault
and_then out_of_fuel k = out_of_fuel

infixl 5 ◌>>=◌ ◌>>◌
abbrev pub ◌>>=◌ : {A B : Type 0} → Cmd A → (A → Cmd B) → Cmd B
◌>>=◌ c k m = and_then (c m) k

abbrev pub ◌>>◌ : {B : Type 0} → Cmd (Unit {0}) → Cmd B → Cmd B
c >> d = c >>= λ _. d

-- Reading a header through its address.
abbrev pub load : ℕ → Cmd Header
load a m = elim (m a) [ none ↦ fault | some h ↦ ok (h, m) ]

abbrev pub store : ℕ → Header → Cmd (Unit {0})
store a h m = ok (tt, update m a h)

-- `header.next_header.take()`.
abbrev pub take_next : ℕ → Cmd (Option ℕ)
take_next a = do h ← load a; store a (record h { next_header = none }); pure h.next_header

-- `Header::new_from_addr`.
abbrev pub fresh_header : Header
fresh_header = record { next_header = none; size = 0; is_allocated = false; reserved = 0 }

unfoldable pub new_from_addr : ℕ → Cmd ℕ
new_from_addr a = store a fresh_header >> pure a
