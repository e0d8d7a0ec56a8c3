-- ===== src/Gateway/Responses.antt =====
-- internal/gateway/responses_compat.go: the Responses API in front of providers that only speak chat
-- completions.
mod Examples
pub mod ToolCalls
pub mod Roles
pub mod Items
pub mod Request
pub mod Outputs
pub mod Calls
pub mod Complete
pub mod Stream
pub mod Finish
