-- ===== src/Lib.antt =====
-- The backend of LumenLiquid: an indexer that decodes contract events into Postgres and Redis, a
-- keeper that watches trades and limit orders and executes what is due, and a WebSocket gateway that
-- shows clients their open trades.
--
-- How the parts interact. The indexer (cmd/indexer/main.go) polls the RPC node; a raw event is
-- decoded (internal/soroban/scval.go, then internal/events/decode.go) to a typed event. The event is
-- applied to the database (internal/store/store.go), and through Redis to the keeper's watched state
-- (internal/keeper/state.go) and to the gateway's cache (internal/wsgateway/cache.go). On each price
-- the detector (internal/keeper/detector.go) reads the watched state, with the mathematics of
-- internal/keeper/math.go, and returns actions, which the executor (internal/keeper/executor.go)
-- queues, simulates and sends. A change of the cache is broadcast by the hub
-- (internal/wsgateway/hub.go) to the clients that are subscribed.
--
-- Prices come from Binance: the keeper's client (internal/keeper/binance.go) fills a channel that the
-- loop of cmd/keeper/main.go empties into the executor's queue, and the gateway's feed
-- (internal/wsgateway/pricefeed.go) broadcasts them. cmd/api/main.go serves the tables over HTTP and
-- opens the sockets of the hub; cmd/pair-indexer/main.go copies the registry contract into the tables
-- of pairs. All calls of the node go through internal/soroban/client.go.
--
-- The files:
--   Base        shared helpers: integers with Go's truncating division and conversions (Int), texts as
--               lists of code points with decimal printing and parsing (Text), ASCII string functions
--               (Strings), parts of lists (Slices), sorting (Sort), times (Time), association maps (Assoc)
--   Soroban     scval.go (Soroban/ScVal, its wide integers in Wide): `Native` and the integer helpers;
--               client.go (Soroban/Client)
--   Events      decode.go: the typed event (Events), `Decode` and its parts (Events/Decode)
--   Keeper      math.go (Keeper/Math), state.go (Keeper/State), detector.go (Keeper/Detector),
--               executor.go (Keeper/Executor), binance.go (Keeper/Binance) and the price loop of
--               cmd/keeper/main.go (Keeper/HotPath), each with its theorems in the files below it
--   Indexer     cmd/indexer/main.go: the start position and one round of polling
--   PairIndexer cmd/pair-indexer/main.go: the retries of a contract call and the loop over the pairs
--   Store       store.go: the tables, the projections by contract, and the theorems on them
--   Wsgateway   cache.go (Wsgateway/Cache, Wsgateway/Slices, Wsgateway/Fees), hub.go (Wsgateway/Hub),
--               client.go (Wsgateway/Pump) and pricefeed.go (Wsgateway/PriceFeed)
--   Api         cmd/api/main.go: trading history (Api/History), pairs and groups (Api/Pairs), open
--               trades (Api/Trades) and the sockets (Api/Sockets)
--   Tests       the theorems at concrete inputs
--
-- Conventions. A Go function `pendKey` is `pend_key` here, a struct is a record with the source's
-- fields, a pointer that may be nil is an `Option`, a `*big.Int` is an integer, an error result is
-- `none` or a constructor. A Go map is an association list; a method under a mutex is one step. A
-- panic of the hub is `none`. Loops run over finite lists, such as the messages of a session, and the
-- ticker of the executor is a list of attempts, one for each answer of the node. Fuel stands in two
-- places: a contract call has the six attempts of the source, and the client that follows the pages
-- of the trading history needs one request more than there are trades, which is proved enough.
--
-- What the database and pgx do is written out: a query that fails, a row that cannot be scanned, which
-- ends the loop over the rows, and, as the parameter `accepts`, a position that the indexer cannot
-- write.
--
-- Not modelled: network connections, JSON, logging, routing and the start of the programs under cmd,
-- which call libraries; the drivers that only run SQL files or call the decoder and the store
-- (cmd/migrate, cmd/indexer-replay). The network and JSON appear as the records `Transport`, `Json`
-- and `Registry`, the command line tool of cmd/pair-indexer as a function of the attempt, the clock's
-- texts as `Rfc3339`; the Stellar SDK, which builds and signs transactions, is the record `Chain`, and
-- base64, XDR and strkey are the record `Codec`.
pub mod Base
pub mod Soroban
pub mod Events
pub mod Keeper
pub mod Store
pub mod Indexer
pub mod Wsgateway
pub mod Api
pub mod PairIndexer
pub mod Tests
