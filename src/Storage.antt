-- ===== src/Storage.antt =====
-- internal/storage/postgres: the repositories, and the two transactions.
pub mod Statements
pub mod Users
pub mod Sessions
pub mod Transactions
pub mod Invariant
pub mod Preservation
pub mod Effects
pub mod Atomicity
pub mod Issue
pub mod Rotate
pub mod Quiet
pub mod Events
