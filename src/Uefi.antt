-- ===== src/Uefi.antt =====
-- uefi.rs, and what wasabi/src/init.rs and wasabi/src/main.rs do with its memory map.
pub mod Types
pub mod MemoryMap
pub mod Iterate
pub mod Boot
pub mod Vram
pub mod Writer
mod Tests
