-- ===== src/Tests/Auth.antt =====
-- The theorems about internal/auth at a small instance of the libraries, over the in-memory
-- repository.
pub mod Samples
mod Tokens
pub mod Table
pub mod Race
pub mod Accounts
