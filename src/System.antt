-- ===== src/System.antt =====
-- The service as a whole: what every request leaves of the links and their cache.
pub mod Sound
mod Stores
mod Reads
mod Reports
mod Handlers
mod Visits
mod Rounds
mod Accounts
pub mod History
