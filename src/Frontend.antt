-- ===== src/Frontend.antt =====
-- frontend/src: the dev switcher and the product view of a pool.
pub mod Proto
pub mod Text
pub mod Model
pub mod Workspace
pub mod Shell
pub mod Api
pub mod SlotUi
pub mod PoolPanel
pub mod PoolView
pub mod Preview
mod Tests
mod PoolTests
