-- ===== src/Bridge.antt =====
-- The bridge process on the Windows side (mt5_bridge): its store, its write path, reconciliation,
-- and the checks and clocks that the write path relies on.
pub mod QuoteFreshness
pub mod ServerClock
pub mod Backend
pub mod Store
pub mod Identity
pub mod Reconciliation
pub mod Trading
pub mod App
pub mod Schemas
mod Tests
