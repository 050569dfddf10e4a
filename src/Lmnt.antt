-- ===== src/Lmnt.antt =====
-- libelement/src/lmnt: the state of the compiler from instructions to LMNT code.
pub mod Allocation
pub mod Allocator
pub mod NaiveAllocator
pub mod State
pub mod Regions
pub mod Constants
pub mod Contexts
pub mod Parents
pub mod Packed
pub mod AllPacked
pub mod Usage
pub mod Uses
mod Tests
