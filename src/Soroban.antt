-- ===== src/Soroban.antt =====
-- internal/soroban: contract values (scval.go) and the RPC client (client.go).
pub mod ScVal
pub mod Client
