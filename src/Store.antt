-- ===== src/Store.antt =====
-- internal/storage/memory.go: the in-memory store. An operation runs under the store's mutex, so it
-- is one step from a store to a store; `time.Now()` is its first argument. A result that is an error
-- comes before the operation's first write, so it carries no new store.
pub mod State
pub mod Quota
pub mod Keys
pub mod Routes
pub mod Usage
pub mod Chats
pub mod WorkerJobs
mod Examples
