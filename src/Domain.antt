-- ===== src/Domain.antt =====
-- internal/domain: the values that the services pass around.
-- A Go string type with named constants and the empty value is a data type with a constructor for
-- the empty value. A pointer to a value that nobody writes through is an Option.
pub mod Price
pub mod Market
pub mod Order
pub mod Trade
pub mod Position
pub mod Phase
