-- ===== src/Gateway/Body.antt =====
-- internal/gateway/handlers.go: what the gateway reads of and writes into the JSON of bodies.
mod Examples
pub mod Usage
pub mod Rewrite
pub mod Request
