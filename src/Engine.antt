-- ===== src/Engine.antt =====
-- internal/services/order_engine.go: the actor that owns balance, orders, positions and trades.
pub mod State
pub mod Merge
pub mod Place
pub mod Cancel
pub mod Update
pub mod Match
pub mod Book
pub mod Trades
pub mod Positions
pub mod Query
pub mod Dispatch
pub mod Frame
pub mod Isolation
pub mod Code
pub mod Pending
pub mod MergeLaws
pub mod Again
pub mod Repeat
pub mod Stored
pub mod Fuel
pub mod Replay
pub mod Money
pub mod Sound
pub mod Late
pub mod Balance
pub mod Tests
