-- ===== src/Tests.antt =====
-- Runs of the model on small inputs.
pub mod Boards
pub mod Dialogs
pub mod Scripts
pub mod Windows
pub mod Filters
pub mod Rules
pub mod Sessions
