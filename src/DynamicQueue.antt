-- ===== src/DynamicQueue.antt =====
-- backend/internal/dynamicqueue, the scheduling engine.
pub mod Slot
pub mod Validate
pub mod Greedy
pub mod Intervals
pub mod Reschedule
pub mod Minutes
mod Tests
