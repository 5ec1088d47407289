-- ===== src/X86/Idt.antt =====
-- The interrupt descriptor table of wasabi/src/x86.rs.
use osdev_hikalium.Prelude.{
  ℕ, ◌+◌, ◌*◌, ◌/◌, ◌%◌, ◌^◌, ◌<◌, ◌≡◌, refl, bit_or, List, length, replicate, set, length-set,
  length-replicate, get_elem?, get_elem?-set, get_elem?-replicate, some, true, ltb, ◌==◌,
  if◌then◌else◌, arith,
}

abbrev pub bit_flags_intgate : ℕ
bit_flags_intgate = 0b0000_1110

abbrev pub bit_flags_present : ℕ
bit_flags_present = 0b1000_0000

abbrev pub bit_flags_dpl0 : ℕ
bit_flags_dpl0 = 0 * 2 ^ 5

abbrev pub bit_flags_dpl3 : ℕ
bit_flags_dpl3 = 3 * 2 ^ 5

pub data IdtAttr : Type 0 where
  not_present int_gate_dpl0 int_gate_dpl3 : IdtAttr

-- The discriminants, which are the attribute byte of a gate.
abbrev pub attr_byte : IdtAttr → ℕ
attr_byte not_present = 0
attr_byte int_gate_dpl0 = bit_or (bit_or bit_flags_intgate bit_flags_present) bit_flags_dpl0
attr_byte int_gate_dpl3 = bit_or (bit_or bit_flags_intgate bit_flags_present) bit_flags_dpl3

pub record IdtDescriptor : Type 0 where
  pub offset_low : ℕ
  pub segment_selector : ℕ
  pub ist_index : ℕ
  pub attr : IdtAttr
  pub offset_mid : ℕ
  pub offset_high : ℕ
  pub reserved : ℕ

-- `IdtDescriptor::new`, with the address of the handler.
unfoldable pub new_descriptor : ℕ → ℕ → IdtAttr → ℕ → IdtDescriptor
new_descriptor segment_selector ist_index attr handler_addr = record {
  offset_low = handler_addr % 2 ^ 16;
  segment_selector = segment_selector;
  ist_index = ist_index;
  attr = attr;
  offset_mid = handler_addr / 2 ^ 16 % 2 ^ 16;
  offset_high = handler_addr / 2 ^ 32 % 2 ^ 32;
  reserved = 0;
}

-- The addresses of the entry points, which the linker chooses.
pub record EntryPoints : Type 0 where
  pub unimplemented : ℕ
  pub entrypoint3 : ℕ
  pub entrypoint6 : ℕ
  pub entrypoint8 : ℕ
  pub entrypoint13 : ℕ
  pub entrypoint14 : ℕ
  pub entrypoint32 : ℕ

-- The assignments of `Idt::new`.
unfoldable pub install : EntryPoints → ℕ → List IdtDescriptor → List IdtDescriptor
install f sel entries =
    let entries = set entries 3 (new_descriptor sel 1 int_gate_dpl3 f.entrypoint3) in
    let entries = set entries 6 (new_descriptor sel 1 int_gate_dpl0 f.entrypoint6) in
    let entries = set entries 8 (new_descriptor sel 2 int_gate_dpl0 f.entrypoint8) in
    let entries = set entries 13 (new_descriptor sel 1 int_gate_dpl0 f.entrypoint13) in
    let entries = set entries 14 (new_descriptor sel 1 int_gate_dpl0 f.entrypoint14) in
    set entries 32 (new_descriptor sel 1 int_gate_dpl0 f.entrypoint32)

-- The table that `Idt::new` builds.
unfoldable pub idt_entries : EntryPoints → ℕ → List IdtDescriptor
idt_entries f sel =
    install f sel (replicate 0x100 (new_descriptor sel 1 int_gate_dpl0 f.unimplemented))

-- `IdtrParameters` as `lidt` gets it.
pub record IdtrParameters : Type 0 where
  pub limit : ℕ
  pub base : ℕ

-- `size_of::<IdtDescriptor>()`, as the source asserts.
abbrev pub descriptor_size : ℕ
descriptor_size = 16

unfoldable pub idtr_parameters : List IdtDescriptor → ℕ → IdtrParameters
idtr_parameters entries base = record {
  limit = length entries * descriptor_size % 2 ^ 16;
  base = base;
}

-- What the processor does with an interrupt: the address that a gate points at, the privilege that
-- `int` needs, and the entry point that the program means for each vector.
abbrev pub gate_offset : IdtDescriptor → ℕ
gate_offset d = d.offset_low + d.offset_mid * 2 ^ 16 + d.offset_high * 2 ^ 32

abbrev pub gate_dpl : IdtDescriptor → ℕ
gate_dpl d = attr_byte d.attr / 2 ^ 5 % 4

abbrev pub gate_present : IdtDescriptor → ℕ
gate_present d = attr_byte d.attr / 2 ^ 7 % 2

abbrev pub entry_point : EntryPoints → ℕ → ℕ
entry_point f v =
    if v == 3
    then f.entrypoint3
    else if v == 6
    then f.entrypoint6
    else if v == 8
    then f.entrypoint8
    else if v == 13
    then f.entrypoint13
    else if v == 14
    then f.entrypoint14
    else if v == 32
    then f.entrypoint32
    else f.unimplemented

pub record IsGate (f : EntryPoints) (sel v : ℕ) (d : IdtDescriptor) : Type 0 where
  pub reaches : gate_offset d ≡ entry_point f v
  pub selects : d.segment_selector ≡ sel
  pub present : gate_present d ≡ 1
  pub dpl : gate_dpl d ≡ (if v == 3 then 3 else 0)
  pub stack : d.ist_index ≡ (if v == 8 then 2 else 1)

-- An address is a word.
pub record AreWords (f : EntryPoints) : Type 0 where
  pub unimplemented_lt : f.unimplemented < 2 ^ 64
  pub entrypoint3_lt : f.entrypoint3 < 2 ^ 64
  pub entrypoint6_lt : f.entrypoint6 < 2 ^ 64
  pub entrypoint8_lt : f.entrypoint8 < 2 ^ 64
  pub entrypoint13_lt : f.entrypoint13 < 2 ^ 64
  pub entrypoint14_lt : f.entrypoint14 < 2 ^ 64
  pub entrypoint32_lt : f.entrypoint32 < 2 ^ 64

new_descriptor-offset :
    (sel ist : ℕ) (attr : IdtAttr) (a : ℕ)
    → a < 2 ^ 64
    → gate_offset (new_descriptor sel ist attr a) ≡ a
unfolding new_descriptor
new_descriptor-offset sel ist attr a h = omega arith

abbrev gate_of : EntryPoints → ℕ → ℕ → IdtDescriptor
gate_of f sel v =
    new_descriptor sel (if v == 8 then 2 else 1) (if v == 3 then int_gate_dpl3 else int_gate_dpl0)
      (entry_point f v)

read_set :
    (xs : List IdtDescriptor) (i j : ℕ) (d : IdtDescriptor)
    → length xs ≡ 256
    → ltb i 256 ≡ true
    → get_elem? (set xs i d) j ≡ (if i == j then some d else get_elem? xs j)
read_set xs i j d size fits = get_elem?-set xs i j d (ground arith)

length-install :
    (f : EntryPoints) (sel : ℕ) (xs : List IdtDescriptor) → length (install f sel xs) ≡ length xs
unfolding install
length-install f sel xs = simp length-set

get_elem?-install :
    (f : EntryPoints) (sel v : ℕ) (xs : List IdtDescriptor)
    → length xs ≡ 256
    → get_elem? xs v ≡ some (new_descriptor sel 1 int_gate_dpl0 f.unimplemented)
    → get_elem? (install f sel xs) v ≡ some (gate_of f sel v)
unfolding install
get_elem?-install f sel v xs size old = simp (read_set, length-set, size, old) (ground arith)

entry_point-lt : (f : EntryPoints) (v : ℕ) → AreWords f → entry_point f v < 2 ^ 64
entry_point-lt f v w = ground arith

gate_of-IsGate : (f : EntryPoints) (sel v : ℕ) → AreWords f → IsGate f sel v (gate_of f sel v)
gate_of-IsGate f sel v w = record {
  reaches = new_descriptor-offset sel _ _ _ (entry_point-lt f v w);
  selects = unfold new_descriptor in refl;
  present = unfold new_descriptor in ground arith;
  dpl = unfold new_descriptor in ground arith;
  stack = unfold new_descriptor in refl;
}

-- When the entry points are 64-bit addresses, each of the 256 vectors has a gate, and it is
-- present, selects the given segment, holds the address of the entry point meant for that vector,
-- allows user code only for vector 3, and uses stack 2 for vector 8 and stack 1 for all others.
pub idt_entries-IsGate :
    (f : EntryPoints) (sel v : ℕ)
    → AreWords f
    → v < 256
    → (d : IdtDescriptor) × (get_elem? (idt_entries f sel) v ≡ some d) × IsGate f sel v d
unfolding idt_entries
idt_entries-IsGate f sel v w h = (
  gate_of f sel v,
  get_elem?-install f sel v (replicate 256 unhandled) (length-replicate 256 unhandled)
      (get_elem?-replicate 256 v unhandled h),
  gate_of-IsGate f sel v w,
)
  where
    unhandled : IdtDescriptor
    unhandled = new_descriptor sel 1 int_gate_dpl0 f.unimplemented
