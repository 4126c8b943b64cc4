-- ===== src/Wsgateway.antt =====
-- The WebSocket gateway (internal/wsgateway): the cache of open positions and the hub.
pub mod Slices
pub mod Cache
pub mod Fees
pub mod Hub
pub mod Pump
pub mod PriceFeed
