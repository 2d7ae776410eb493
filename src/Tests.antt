-- ===== src/Tests.antt =====
-- The theorems at concrete inputs, on databases and stores that are values.
mod Data
mod Limiter
mod Links
mod Clicks
mod Auth
mod Changes
mod Urls
mod Tokens
mod History
mod Snapshots
mod Summaries
mod Schema
mod Pictures
