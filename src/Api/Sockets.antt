-- ===== src/Api/Sockets.antt =====
-- The WebSocket handlers of cmd/api/main.go; `chi.URLParam` gives the trader.
use lumen_liquid_backend.Base.{ℕ, Option, List, ◌++◌}
use lumen_liquid_backend.Base.Text.{Text, codes}
use lumen_liquid_backend.Wsgateway.Hub.Lifecycle.{Action}
use lumen_liquid_backend.Wsgateway.Pump.{ClientMessage, Snapshots, open_socket}

module _ (cache : Snapshots) (client_message : Text → Option ClientMessage) where
  unfoldable pub handle_trade_web_socket : Text → ℕ → List Text → List Action
  handle_trade_web_socket trader = open_socket cache client_message (codes "trader:" ++ trader)

  unfoldable pub handle_all_trades_web_socket : ℕ → List Text → List Action
  handle_all_trades_web_socket = open_socket cache client_message (codes "trades:all")

  unfoldable pub handle_prices_web_socket : ℕ → List Text → List Action
  handle_prices_web_socket = open_socket cache client_message (codes "prices")
