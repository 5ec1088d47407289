-- ===== src/X86/Segments.antt =====
-- `init_exceptions` of wasabi/src/x86.rs, with the writes to the segment registers and the loads of the
-- tables. The addresses of the two tables and of the task state segment are parameters.
use osdev_hikalium.Prelude.{
  ℕ, ◌+◌, ◌*◌, ◌/◌, ◌%◌, ◌^◌, ◌≤◌, ◌<◌, ◌≡◌, refl, List, get_elem?, length, some, arith,
}
use osdev_hikalium.X86.Gdt.{
  gdt_words, gdt_limit, kernel_cs, kernel_ds, tss64_sel, segment_descriptor, present_bit, FindsTss,
  gdt_words-FindsTss,
}
use osdev_hikalium.X86.Idt.{
  EntryPoints, AreWords, IdtDescriptor, IdtrParameters, IsGate, idt_entries, idtr_parameters,
  idt_entries-IsGate,
}

-- `GdtrParameters`.
pub record GdtrParameters : Type 0 where
  pub limit : ℕ
  pub base : ℕ

-- The registers that name segments and tables.
pub record Segments : Type 0 where
  pub es : ℕ
  pub cs : ℕ
  pub ss : ℕ
  pub ds : ℕ
  pub fs : ℕ
  pub gs : ℕ
  pub tr : ℕ
  pub gdtr : GdtrParameters
  pub idtr : IdtrParameters

-- The words of the boxed table, the address of the box, and the address of the task state segment.
pub record GdtWrapper : Type 0 where
  pub inner : List ℕ
  pub inner_addr : ℕ
  pub tss64 : ℕ

unfoldable pub write_es : ℕ → Segments → Segments
write_es selector s = record s { es = selector }

-- The far jump goes on behind itself; it loads `cs`.
unfoldable pub write_cs : ℕ → Segments → Segments
write_cs selector s = record s { cs = selector }

unfoldable pub write_ss : ℕ → Segments → Segments
write_ss selector s = record s { ss = selector }

unfoldable pub write_ds : ℕ → Segments → Segments
write_ds selector s = record s { ds = selector }

unfoldable pub write_fs : ℕ → Segments → Segments
write_fs selector s = record s { fs = selector }

unfoldable pub write_gs : ℕ → Segments → Segments
write_gs selector s = record s { gs = selector }

-- `GdtWrapper::default`.
unfoldable pub default_wrapper : ℕ → ℕ → GdtWrapper
default_wrapper tss_addr gdt_addr = record {
  inner = gdt_words tss_addr;
  inner_addr = gdt_addr;
  tss64 = tss_addr;
}

-- `GdtWrapper::load`: `lgdt` and `ltr`.
unfoldable pub load_gdt : GdtWrapper → Segments → Segments
load_gdt w s = record s { gdtr = record { limit = gdt_limit; base = w.inner_addr }; tr = tss64_sel }

-- The load in `Idt::new`: `lidt`.
unfoldable pub load_idt : List IdtDescriptor → ℕ → Segments → Segments
load_idt entries idt_addr s = record s { idtr = idtr_parameters entries idt_addr }

-- `init_exceptions`: the table, the gates, and the registers.
unfoldable pub init_exceptions :
    EntryPoints → ℕ → ℕ → ℕ → Segments → GdtWrapper × List IdtDescriptor × Segments
init_exceptions f tss_addr gdt_addr idt_addr s =
    let gdt = default_wrapper tss_addr gdt_addr in
    let s = load_gdt gdt s in
    let s = write_gs kernel_ds (
      write_fs kernel_ds
        (write_ds kernel_ds (write_es kernel_ds (write_ss kernel_ds (write_cs kernel_cs s))))) in
    let idt = idt_entries f kernel_cs in (gdt, idt, load_idt idt idt_addr s)

-- The fields of a descriptor that the processor reads for a selector.
abbrev executable_bit : ℕ → ℕ
executable_bit word = word / 2 ^ 43 % 2

abbrev long_bit : ℕ → ℕ
long_bit word = word / 2 ^ 53 % 2

abbrev writable_bit : ℕ → ℕ
writable_bit word = word / 2 ^ 41 % 2

abbrev segment_bit : ℕ → ℕ
segment_bit word = word / 2 ^ 44 % 2

abbrev privilege : ℕ → ℕ
privilege word = word / 2 ^ 45 % 4

-- The selector names a present segment of the kernel within the limit.
pub record NamesSegment (words : List ℕ) (gdtr : GdtrParameters) (sel word : ℕ) : Type 0 where
  pub found : get_elem? words (sel / 8) ≡ some word
  pub within : sel + 7 ≤ gdtr.limit
  pub present : present_bit word ≡ 1
  pub segment : segment_bit word ≡ 1
  pub kernel : privilege word ≡ 0

pub record IsSetUp (f : EntryPoints) (tss_addr gdt_addr idt_addr : ℕ) (w : GdtWrapper)
    (idt : List IdtDescriptor) (s : Segments) : Type 0 where
  pub gdt_base : s.gdtr.base ≡ gdt_addr
  pub gdt_size : s.gdtr.limit + 1 ≡ 8 * length w.inner
  pub idt_base : s.idtr.base ≡ idt_addr
  pub code :
      (word : ℕ) × NamesSegment w.inner s.gdtr s.cs word
      × (executable_bit word ≡ 1)
      × (long_bit word ≡ 1)
  pub data_segment :
      (word : ℕ) × NamesSegment w.inner s.gdtr s.ss word
      × (executable_bit word ≡ 0)
      × (writable_bit word ≡ 1)
  pub data_same : (s.ds ≡ s.ss) × (s.es ≡ s.ss) × (s.fs ≡ s.ss) × (s.gs ≡ s.ss)
  pub task : FindsTss w.inner s.tr tss_addr
  pub gates :
      (v : ℕ) → v < 256 → (d : IdtDescriptor) × (get_elem? idt v ≡ some d) × IsGate f s.cs v d

-- When the entry points and the task state segment have 64-bit addresses, after init_exceptions
-- the base registers hold the two tables and the limit of the first covers all of it; cs selects
-- in it a present kernel segment of 64-bit code, ss a present kernel segment of writable data, the
-- four other data registers the same one, and the task register the task state segment; and each
-- of the 256 gates leads with cs to the entry point meant for its vector.
pub init_exceptions-IsSetUp :
    (f : EntryPoints) (tss_addr gdt_addr idt_addr : ℕ) (before : Segments)
    → AreWords f
    → tss_addr < 2 ^ 64
    → (w : GdtWrapper) × (idt : List IdtDescriptor) × (s : Segments) × (init_exceptions f tss_addr
          gdt_addr idt_addr before
        ≡ (w, idt, s))
      × IsSetUp f tss_addr gdt_addr idt_addr w idt s
unfolding init_exceptions default_wrapper load_gdt load_idt write_es write_cs write_ss write_ds
    write_fs write_gs gdt_words segment_descriptor idtr_parameters
init_exceptions-IsSetUp f tss_addr gdt_addr idt_addr before words lt = (
  _,
  _,
  _,
  refl,
  record {
    gdt_base = refl;
    gdt_size = refl;
    idt_base = refl;
    code = (
      _,
      record { found = refl; within = omega arith; present = refl; segment = refl; kernel = refl },
      refl,
      refl,
    );
    data_segment = (
      _,
      record { found = refl; within = omega arith; present = refl; segment = refl; kernel = refl },
      refl,
      refl,
    );
    data_same = (refl, refl, refl, refl);
    task = gdt_words-FindsTss tss_addr lt;
    gates = λ v h. idt_entries-IsGate f kernel_cs v words h;
  },
)
