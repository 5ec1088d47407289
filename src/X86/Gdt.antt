-- ===== src/X86/Gdt.antt =====
-- The segment descriptors of wasabi/src/x86.rs: the values of `GtdAttr`, the packed descriptor of
-- the task state segment, and the table that the selectors index.
use osdev_hikalium.Prelude.{
  ℕ, ◌+◌, ◌-◌, ◌*◌, ◌/◌, ◌%◌, ◌^◌, ◌≤◌, ◌<◌, ◌≡◌, refl, bit_and, bit_or, List, [], ◌∷◌, get_elem?,
  some, arith,
}
use osdev_hikalium.Prelude.Bits.{bit_and_low}

abbrev pub bit_type_data : ℕ
bit_type_data = 0b10 * 2 ^ 43

abbrev pub bit_type_code : ℕ
bit_type_code = 0b11 * 2 ^ 43

abbrev pub bit_present : ℕ
bit_present = 1 * 2 ^ 47

abbrev pub bit_cs_long_mode : ℕ
bit_cs_long_mode = 1 * 2 ^ 53

abbrev pub bit_cs_readable : ℕ
bit_cs_readable = 1 * 2 ^ 53

abbrev pub bit_ds_writable : ℕ
bit_ds_writable = 1 * 2 ^ 41

pub data GtdAttr : Type 0 where
  kernel_code kernel_data : GtdAttr

-- `GdtSegmentDescriptor::new`: the descriptor is the discriminant.
unfoldable pub segment_descriptor : GtdAttr → ℕ
segment_descriptor kernel_code = bit_or (bit_or bit_type_code bit_present) bit_cs_readable
segment_descriptor kernel_data = bit_or (bit_or bit_type_data bit_present) bit_ds_writable

abbrev pub kernel_cs : ℕ
kernel_cs = 1 * 2 ^ 3

abbrev pub kernel_ds : ℕ
kernel_ds = 2 * 2 ^ 3

abbrev pub tss64_sel : ℕ
tss64_sel = 3 * 2 ^ 3

-- `size_of::<TaskStateSegment64Inner>()`, as the source asserts.
abbrev pub tss_size : ℕ
tss_size = 104

pub record TssDescriptor : Type 0 where
  pub limit_low : ℕ
  pub base_low : ℕ
  pub base_mid_low : ℕ
  pub attr : ℕ
  pub base_mid_high : ℕ
  pub base_high : ℕ
  pub reserved : ℕ

-- `TaskStateSegment64Descriptor::new`.
unfoldable pub tss_descriptor : ℕ → TssDescriptor
tss_descriptor base_addr = record {
  limit_low = tss_size % 2 ^ 16;
  base_low = bit_and base_addr 0xffff % 2 ^ 16;
  base_mid_low = bit_and (base_addr / 2 ^ 16) 0xff % 2 ^ 8;
  attr = 0b1000_0000_1000_1001;
  base_mid_high = bit_and (base_addr / 2 ^ 24) 0xff % 2 ^ 8;
  base_high = bit_and (base_addr / 2 ^ 32) 0xffff_ffff % 2 ^ 32;
  reserved = 0;
}

-- The two words that the packed structure takes in memory, least significant byte first.
abbrev pub tss_words : TssDescriptor → List ℕ
tss_words d =
    (d.limit_low
      + d.base_low * 2 ^ 16
      + d.base_mid_low * 2 ^ 32
      + d.attr * 2 ^ 40
      + d.base_mid_high * 2 ^ 56)
    ∷ (d.base_high + d.reserved * 2 ^ 32)
    ∷ []

-- `Gdt` as `GdtWrapper::default` fills it: its words in memory.
unfoldable pub gdt_words : ℕ → List ℕ
gdt_words tss_addr =
    0
    ∷ segment_descriptor kernel_code
    ∷ segment_descriptor kernel_data
    ∷ tss_words (tss_descriptor tss_addr)

-- `GdtrParameters::limit`: `size_of::<Gdt>()`, which the source asserts to be 40, less one.
abbrev pub gdt_limit : ℕ
gdt_limit = (40 - 1) % 2 ^ 16

-- How the processor reads a descriptor of 16 bytes: its base and its limit.
abbrev pub system_base : ℕ → ℕ → ℕ
system_base low high =
    low / 2 ^ 16 % 2 ^ 24 + low / 2 ^ 56 % 2 ^ 8 * 2 ^ 24 + high % 2 ^ 32 * 2 ^ 32

abbrev pub system_limit : ℕ → ℕ
system_limit low = low % 2 ^ 16 + low / 2 ^ 48 % 2 ^ 4 * 2 ^ 16

abbrev pub system_type : ℕ → ℕ
system_type low = low / 2 ^ 40 % 2 ^ 4

abbrev pub present_bit : ℕ → ℕ
present_bit low = low / 2 ^ 47 % 2

-- What `ltr` finds behind a selector: an available 64-bit task state segment at `base`.
pub record FindsTss (words : List ℕ) (sel base : ℕ) : Type 0 where
  pub low : ℕ
  pub high : ℕ
  pub at_low : get_elem? words (sel / 8) ≡ some low
  pub at_high : get_elem? words (sel / 8 + 1) ≡ some high
  pub in_limit : sel + 15 ≤ gdt_limit
  pub based : system_base low high ≡ base
  pub available : system_type low ≡ 9
  pub present : present_bit low ≡ 1
  pub covers : tss_size ≤ system_limit low + 1

-- For a 64-bit address, the selector that ltr gets finds, within the limit of the table, an
-- available 64-bit task state segment that is present, starts at that address and covers at least
-- its size.
pub gdt_words-FindsTss : (base : ℕ) → base < 2 ^ 64 → FindsTss (gdt_words base) tss64_sel base
unfolding gdt_words tss_descriptor
gdt_words-FindsTss base h = record {
  low = _;
  high = _;
  at_low = refl;
  at_high = refl;
  in_limit = omega arith;
  based = rw (bit_and_low 16, bit_and_low 8, bit_and_low 8, bit_and_low 32) (omega arith);
  available = rw (bit_and_low 16, bit_and_low 8, bit_and_low 8) (omega arith);
  present = rw (bit_and_low 16, bit_and_low 8, bit_and_low 8) (omega arith);
  covers = rw (bit_and_low 16, bit_and_low 8, bit_and_low 8) (omega arith);
}
