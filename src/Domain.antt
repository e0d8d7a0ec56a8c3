-- ===== src/Domain.antt =====
-- internal/domain/types.go: the records that the components share, and their normal forms.
pub mod Time
pub mod ApiKeys
pub mod Quota
pub mod Routes
pub mod Usage
pub mod Chat
pub mod Protocols
pub mod Timeouts
pub mod Workers
