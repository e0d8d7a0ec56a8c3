-- ===== src/Ass.antt =====
-- internal/ass: the server inside a workspace, its jobs and its shell sessions.
pub mod Ids
pub mod Feed
pub mod Jobs
pub mod Shells
pub mod Output
pub mod Paths
mod Examples
