-- ===== src/Api.antt =====
-- cmd/api/main.go: the request handlers. A handler is a function of the parameters of the request
-- and of what the database answers, and returns the response. Routing, CORS and the start of the
-- server are left out, and so is `jsonMarshalTrades`, which nothing calls.
pub mod History
pub mod Pairs
pub mod Trades
pub mod Sockets
use lumen_liquid_backend.Base.{ℕ, Bool, Option, List}
use lumen_liquid_backend.Base.Text.{Text}

-- A JSON body, or `http.Error` with its status.
pub data Response (A : Type 0) : Type 0 where
  json : A → Response A
  http_error : Text → ℕ → Response A

-- The answer to a query of many rows: `none` for a query that fails, `none` for a row that cannot be
-- scanned.
abbrev pub Rows : Type 0 → Type 0
Rows A = Option (List (Option A))
