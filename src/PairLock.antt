-- ===== src/PairLock.antt =====
-- internal/strategies/velocitypairlock: buy both tokens of a market so that the two prices and the profit come
-- to a dollar. A texts-valued setting is a text, a pointer to a Boolean an Option. An `int` is an integer, and
-- `int(math.Abs(float64(n)))` is its absolute value, which float64 has exactly up to 2 ^ 53.
pub mod Config
pub mod Pricer
pub mod Velocity
pub mod Window
pub mod State
pub mod Orders
pub mod Trigger
pub mod Placing
pub mod Hedging
pub mod StopLoss
pub mod Sweep
pub mod Run
pub mod Sound
pub mod SoundPlaced
pub mod SoundRun
pub mod Safety
pub mod StopLimit
pub mod Tests
