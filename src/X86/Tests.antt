-- ===== src/X86/Tests.antt =====
-- The theorems about the x86 tables and the interrupt entry, at concrete inputs.
use osdev_hikalium.Prelude.{List, ℕ, ◌+◌, ◌*◌, ◌≡◌, refl, inl, ◌++◌, arith}
use osdev_hikalium.X86.Idt.{EntryPoints, AreWords, IdtDescriptor}
use osdev_hikalium.X86.Tss.{new, HasStack, AreApart, new-HasStack}
use osdev_hikalium.X86.Cpu.{Machine, rax, put, run}
use osdev_hikalium.X86.Entry.{
  interrupt_entrypoint, interrupt_entrypoint_with_ecode, inthandler_common, save_registers,
  prepare_call,
}
use osdev_hikalium.X86.Resume.{FollowsSysv64, Resumes, interrupt_entrypoint-Resumes}
use osdev_hikalium.X86.Segments.{
  GdtWrapper, Segments, init_exceptions, IsSetUp, init_exceptions-IsSetUp,
}
use osdev_hikalium.X86.View.{Describes, interrupt_entrypoint-Describes}
use osdev_hikalium.X86.View.ErrorCode.{Misdescribes, interrupt_entrypoint_with_ecode-Misdescribes}
use osdev_hikalium.X86.Handler.{InterrupInfo, info_at}

abbrev entries : EntryPoints
entries = record {
  unimplemented = 0x1000;
  entrypoint3 = 0xffff_8000_0000_2003;
  entrypoint6 = 0x2006;
  entrypoint8 = 0x2008;
  entrypoint13 = 0x200d;
  entrypoint14 = 0x200e;
  entrypoint32 = 0x2020;
}

entries-AreWords : AreWords entries
entries-AreWords = record {
  unimplemented_lt = omega arith;
  entrypoint3_lt = omega arith;
  entrypoint6_lt = omega arith;
  entrypoint8_lt = omega arith;
  entrypoint13_lt = omega arith;
  entrypoint14_lt = omega arith;
  entrypoint32_lt = omega arith;
}

abbrev boxes : ℕ → ℕ
boxes i = 0x100000 + i * 0x10000

boxes-AreApart : AreApart boxes
boxes-AreApart i j lt h = inl (omega arith)

new-HasStack_example : HasStack boxes (new boxes) 2
new-HasStack_example = new-HasStack boxes 2 boxes-AreApart (omega arith)

-- A call that leaves its result in `rax`.
abbrev handler : Machine → Machine
handler m = record m { regs = put m.regs rax 7 }

handler-FollowsSysv64 : FollowsSysv64 handler
handler-FollowsSysv64 = record { keeps_rbp = λ m. refl; keeps_mem = λ m a h. refl }

abbrev machine : Machine
machine = record { regs = λ r. 5; rsp = 0x8000; mem = λ a. a + 1; fpu = λ i. i }

interrupt_entrypoint-Resumes_example :
    Resumes 0x8000 machine (run handler (interrupt_entrypoint 3 ++ inthandler_common) machine)
interrupt_entrypoint-Resumes_example =
    interrupt_entrypoint-Resumes handler 3 machine handler-FollowsSysv64 (omega arith)

interrupt_entrypoint-Describes_example :
    Describes 3 machine
      (run handler (interrupt_entrypoint 3 ++ save_registers ++ prepare_call) machine)
interrupt_entrypoint-Describes_example =
    interrupt_entrypoint-Describes handler 3 machine (omega arith)

interrupt_entrypoint_with_ecode-Misdescribes_example :
    Misdescribes 14 machine
      (run handler (interrupt_entrypoint_with_ecode 14 ++ save_registers ++ prepare_call) machine)
interrupt_entrypoint_with_ecode-Misdescribes_example =
    interrupt_entrypoint_with_ecode-Misdescribes handler 14 machine (omega arith)

abbrev info : InterrupInfo
info = info_at (λ a. 0) 0

abbrev vector : ℕ
vector = 3

abbrev reset : Segments
reset = record {
  es = 0;
  cs = 0x38;
  ss = 0;
  ds = 0;
  fs = 0;
  gs = 0;
  tr = 0;
  gdtr = record { limit = 0; base = 0 };
  idtr = record { limit = 0; base = 0 };
}

init_exceptions-IsSetUp_example :
    (w : GdtWrapper) × (idt : List IdtDescriptor) × (s : Segments) × (init_exceptions entries 0x5000
        0x6000 0x7000 reset
      ≡ (w, idt, s))
    × IsSetUp entries 0x5000 0x6000 0x7000 w idt s
init_exceptions-IsSetUp_example =
    init_exceptions-IsSetUp entries 0x5000 0x6000 0x7000 reset entries-AreWords (omega arith)
