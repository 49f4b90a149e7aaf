-- ===== src/Tests.antt =====
-- Runs at concrete data, and the theorems applied to them.
pub mod Auth
mod Server
mod Pipeline
pub mod Migration
pub mod Loading
pub mod Start
mod App
mod Sessions
