-- ===== src/Execution.antt =====
-- The Linux-side execution layer (src/execution): its vocabulary, the fail-closed policy and the
-- checks that stand before a request leaves for the bridge.
pub mod Domain
pub mod Policy
pub mod Remote
pub mod Safe
pub mod QuoteFreshness
mod Tests
