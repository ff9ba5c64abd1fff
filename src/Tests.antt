-- ===== src/Tests.antt =====
-- A platform to run the program on, and the theorems at concrete inputs.
pub mod Sample
pub mod Tokens
pub mod Keys
pub mod Service
pub mod Requests
pub mod Limits
pub mod Lifetimes
pub mod Serving
pub mod Settings
pub mod Running
pub mod Webhooks
pub mod Replays
