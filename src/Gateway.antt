-- ===== src/Gateway.antt =====
-- internal/gateway/handlers.go: routing, quota, retries, costs and the response cache.
pub mod Cost
mod Examples
pub mod Candidates
pub mod Resolve
pub mod Errors
pub mod Reads
pub mod Cache
pub mod Forward
pub mod Body
pub mod Responses
