-- ===== src/Execution/Remote.antt =====
-- The HTTP client of the bridge: src/execution/mt5_remote.py.
pub mod Json
pub mod Values
pub mod Records
pub mod Answers
pub mod Listings
pub mod Http
pub mod Calls
pub mod Client
pub mod Queries
pub mod Reads
pub mod Parsed
pub mod History
