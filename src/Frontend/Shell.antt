-- ===== src/Frontend/Shell.antt =====
-- frontend/src: the build's environment, the theme, the session and the switcher's controls.
pub mod Env
pub mod Theme
pub mod Controls
pub mod Access
pub mod Provision
pub mod Entry
mod Tests
