-- ===== src/Allocator.antt =====
-- allocator.rs.
pub mod Pow2
pub mod Memory
pub mod Header
pub mod Regions
pub mod Chain
pub mod Carve
pub mod Address
pub mod Provide
pub mod Request
pub mod FirstFit
pub mod Layouts
pub mod Walk
pub mod Pieces
pub mod Grants
pub mod Alloc
pub mod Dealloc
pub mod Cycle
pub mod Init
pub mod Boot
pub mod Room
pub mod Client
pub mod UnitTests
mod Tests
