-- ===== src/Tests.antt =====
-- Small inputs at which the theorems are applied.
pub mod ContextTests
pub mod X64Tests
pub mod MemoryTests
pub mod AccessTests
pub mod PeekTests
pub mod PeTests
pub mod LoadedTests
pub mod TargetTests
pub mod HybridTests
