-- ===== src/Container.antt =====
-- components/utility/utility/cont: the circular buffer and its counter, and PosArray.
pub mod Counter
pub mod Circular
pub mod Filled
pub mod Queue
pub mod Observe
pub mod PosArray
pub mod Slice
pub mod Swap
mod Tests
mod SwapTests
