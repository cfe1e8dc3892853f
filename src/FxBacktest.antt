-- ===== src/FxBacktest.antt =====
-- The FX backtest: src/fx/backtesting/.
pub mod Models
pub mod Costs
pub mod Rollover
pub mod Execution
pub mod Pnl
pub mod Config
pub mod Legs
pub mod State
pub mod Engine
pub mod Moves
pub mod Rounds
pub mod Loop
pub mod Causal
pub mod Ended
pub mod Books
pub mod Solvency
pub mod Prices
pub mod Accounting
pub mod Returns
pub mod Total
mod Tests
