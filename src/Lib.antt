-- ===== src/Lib.antt =====
-- The core of a trading bot for the YES/NO markets of an exchange: the actor that owns its balance,
-- orders, positions and trades, and the guards around it.
--
-- The parts and the code that they model, by paths from the repository's root:
--   Base         what the parts share: lists, dictionaries (Go maps with text keys), texts, int64
--                arithmetic, float64 as an interface, and one instance of it with four decimal places.
--   Domain       internal/domain/{order,market,trade,position}.go and the order side of
--                clob/types/common.go: Price, Market, Order, Trade, Position, Phase.
--   Engine       internal/services/order_engine.go. State has OrderEngine and the commands; Place, Cancel,
--                Update, Trades, Positions and Query have the handlers (handlePlaceOrder,
--                handleCancelOrder, ...); Merge has mergeOrderInPlace; Match and Book are the parts of
--                handleProcessTrade that find the order of a trade and book it on a position
--                (updatePositionFromTrade); Dispatch has handleCommand and the loop of Run. Code is the
--                lists of what a proof unfolds; Frame and Sound have the lemmas.
--   MarketMath   pkg/marketmath/effective.go: effective prices and CheckArbitrage.
--   Risk         internal/risk/circuit_breaker.go: the circuit breaker.
--   InFlight     internal/execution/inflight.go: the deduper of requests in flight.
--   Execution    internal/execution/engine.go: Submit with its gate, and the key; Process has process,
--                placeAllLegs and OnOrderUpdate; AutoHedge has tryAutoHedge.
--   BestBook     internal/marketstate/atomic_bestbook.go: the best quotes in packed words; Writers has
--                UpdateToken's loop with two goroutines, step by step.
--   RateLimit    pkg/ratelimit/ratelimit.go: the token bucket, the sliding window, limiters by endpoint.
--   Cache        pkg/cache/cache.go: the cache whose items expire.
--   Quality      internal/services/market_quality.go: GetMarketQuality and Tradable, over BestBook and
--                MarketMath.
--   PairLock     internal/strategies/velocitypairlock: Config, Pricer and Velocity have the files of these
--                names; strategy.go is in State, Orders (OnOrderUpdate), Trigger (OnPriceChanged), Placing
--                (placePairAsync), Hedging, StopLoss and Sweep (the confirmations, sweepOnce). Run takes the
--                sections under the strategy's lock as steps in any order; Sound, SoundRun, Safety and
--                StopLimit have what holds of them.
--
-- How they interact. A strategy asks the circuit breaker and the deduper before it sends a command to the
-- engine. The engine handles one command at a time, changes its state and asks its executor to place or
-- cancel at the exchange. The executor's answer comes back as an update command, and fills come in as trade
-- commands. A strategy reads the best book, which the stream's goroutines update, through the market's quality.
-- In the model a handler takes the state to the next one and a list of effects: replies, operations
-- started, commands that the engine sends itself and callbacks.
--
-- What stands for what:
--   - An order is an object that several maps and positions point to: a reference into a heap, which is a
--     function. Trades, markets and positions are values. A position is changed by its map entry alone.
--   - float64 is the parameter Float, with every operation that the code uses. Where a theorem relies on an
--     order of floats it takes IsOrdered, which is what IEEE 754 says, NaN included. Base/Decimal fills both.
--   - int and int64 are integers, whose sums wrap at 64 bits.
--   - A Go map is a list of entries whose order is that of `range`; an insertion keeps the place of a key.
--   - The clock is read once for a handled command (Env), and by its caller for the deduper and the breaker.
--     The stamp of a made-up order id comes from it too.
--   - A reply is an effect: that the receiver may have gone is not seen by the engine. A callback reads the
--     order that it gets, a handler that panics counts an error, and each method of the breaker and of the
--     deduper runs alone.
--   - Other goroutines hold pointers to the engine's orders: on paper the executor fills them, and the
--     synchronisation of trading_sync.go corrects their status and, where it finds an order by its attributes,
--     their id. A run (Dispatch.run) is therefore a list of events: commands that the loop receives, such writes
--     with any contents, and new orders. A write falls between two commands. Which orders others may fill or
--     cancel is the parameter Others of Sound.
--   - A status is one of the named texts or another one. Sides and tokens are the named ones and the empty text.
--   - Errors of the engine are a data type with what their texts print; errors of the executor are texts.
--
-- Bounds and fuel. handleProcessTrade calls itself for trades that were pending. Its fuel is two more than the
-- number of pending trades, since a call is made for one that was taken away.
--
-- Not modelled: the channel in front of the engine and its drop of a command that finds it full; the trading
-- service and the executor, which call the exchange; the strategy's poller that merges positions; market
-- specification and the other packages; clients, servers, commands and logging.
pub mod Base
pub mod Domain
pub mod Engine
pub mod MarketMath
pub mod Risk
pub mod InFlight
pub mod BestBook
pub mod RateLimit
pub mod Quality
pub mod PairLock
pub mod Execution
pub mod Cache
