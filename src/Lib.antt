-- ===== src/Lib.antt =====
-- The wasabi kernel (wasabi/src of the repository): a small operating system that UEFI starts, that takes
-- over the memory map, builds a heap and its own descriptor tables, and prints to a serial port.
--
-- How the parts interact. `efi_main` (wasabi/src/main.rs) draws on the screen, leaves the boot services
-- through wasabi/src/init.rs, which gives the memory map of wasabi/src/uefi.rs to the heap of
-- wasabi/src/allocator.rs, and then installs the tables of wasabi/src/x86.rs. Everything is logged through
-- wasabi/src/print.rs and wasabi/src/serial.rs.
--
-- Which file models which part:
-- Prelude and below: tests, lists, bit operations, and words of 64 bits. The build is the `dev` profile
-- of Cargo, in which an addition or a subtraction that leaves its range panics.
-- Graphics: wasabi/src/graphics.rs on checked 64-bit integers. A bitmap is what its trait methods return,
-- memory holds a colour at an address, and a drawing hands the memory on. Paint says what a drawing in one
-- colour leaves, Pattern.Layers the same for many; Line, Font and Pattern are the lines, the text and the test pattern.
-- Uefi: the memory map of wasabi/src/uefi.rs (Types, MemoryMap, Iterate), in Boot the exit from the boot services
-- and the end of memory in wasabi/src/init.rs, in Vram the protocols and the
-- frame buffer as a bitmap, and in Writer the text on it.
-- Main: the drawing in `efi_main` of wasabi/src/main.rs, on top of Uefi and Graphics; in Boot the two halves of
-- `efi_main`, up to the tables of the firmware and from `init_exceptions` on, with records of what they change,
-- Boot.Printed on what the stages print, and Boot.Success on the ends.
-- Runner: wasabi/src/test_runner.rs and wasabi/src/qemu.rs; in Suite the test build of wasabi/src/lib.rs, which runs the
-- test cases of the allocator one after the other.
-- Init: `init_paging` of wasabi/src/init.rs on top of Uefi and X86, and in Runtime `init_basic_runtime` on top of Uefi and
-- Allocator.
-- Allocator: wasabi/src/allocator.rs. Memory holds the headers by address, Header the methods of `Header`
-- (`provide` is split at its blocks), FirstFit the methods of `FirstFitAllocator`. Regions, Chain,
-- Layouts and Request state the invariant; Alloc, Dealloc, Cycle and Boot prove the operations against it. Client is
-- the allocator with its callers, as steps on what they hold, with Once on what they get never again; Room says when a request succeeds, and UnitTests are the
-- tests of the file, of which Overlap is the one that reads and writes what it got: its Ram
-- is one memory for headers and bytes, in which each destroys what it lies over.
-- X86: wasabi/src/x86.rs. Idt, Gdt and Tss build the three tables; Cpu runs the instructions of the
-- interrupt entry (Entry), Resume and View say what the entry does, and Handler is `inthandler`. Segments is
-- `init_exceptions`. Paging is `Entry`, `Table` and `PML4`, with the tables as words in memory; below it Tree says which tables form a tree and which
-- entry an address uses, and Translate what a mapping does to that. Show is the text that the file formats.
-- Serial: wasabi/src/serial.rs, with the accesses to the ports as a log; Uart reads the log as the device
-- does, and Send is about the polling.
-- Print: `hexdump_bytes` of wasabi/src/print.rs; Format are the formats of core::fmt that the source uses, and Log is
-- `global_print` with the macros on the serial port.
--
-- Fuel. The walk over the list of headers takes fuel: the number of headers plus one is enough, and a
-- request adds two. The polling of the line status takes fuel: as many polls as the device needs at most, by hypothesis on the device,
-- are enough. The iterator of the memory map takes one call more than there are descriptors, and the exit from
-- the boot services as many rounds as the firmware needs, by hypothesis on it. All other loops are structural.
--
-- Parameters. The lines of wasabi/src/font.txt, the addresses that the linker or the heap chooses, the
-- answers of the firmware, the layouts that the libraries build and ask for, the contents of the line status
-- register, and the effect of the compiled `inthandler` on registers and memory, of which only the
-- calling convention is assumed. Where a theorem needs the boxes of page tables to differ, it says how many: three for
-- each page at most.
--
-- Not modelled: what the boxes of `init_exceptions` and `init_paging` take from the heap, and the panic when it is full: these
-- functions get the addresses of their boxes as a parameter. The order in which the test framework collects the test cases, which is taken to be that of the file,
-- the text of a panic, the single instructions of wasabi/src/x86.rs as such, and the firmware itself.
pub mod Prelude
pub mod Graphics
pub mod Uefi
pub mod Allocator
pub mod X86
pub mod Serial
pub mod Print
pub mod Init
pub mod Main
pub mod Runner
