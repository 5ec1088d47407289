-- ===== src/X86.antt =====
-- x86.rs.
pub mod Idt
pub mod Gdt
pub mod Tss
pub mod Cpu
pub mod Entry
pub mod Nest
pub mod Resume
pub mod Handler
pub mod View
pub mod Segments
pub mod Paging
pub mod Show
mod Tests
