-- ===== src/Keeper.antt =====
-- The keeper (internal/keeper): prices and fees, the watched state, detection, the executor.
pub mod Math
pub mod State
pub mod Detector
pub mod Executor
pub mod Binance
pub mod HotPath
