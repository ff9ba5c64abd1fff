-- ===== src/Process.antt =====
-- The process: cmd/main.go, and internal/api/api.go from the listening to the end.
pub mod Startup
pub mod Started
pub mod Progress
pub mod Shutdown
pub mod Order
pub mod Ending
pub mod Replay
