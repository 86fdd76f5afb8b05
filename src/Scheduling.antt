-- ===== src/Scheduling.antt =====
-- backend/internal/services/scheduling: the events on a pool and the engine's input.
pub mod Store
pub mod Notify
pub mod Tables
pub mod Helpers
pub mod Events
pub mod Convert
pub mod Apply
pub mod Service
pub mod Accepted
pub mod Lifecycle
pub mod Next
pub mod Rights
pub mod Tests
