-- ===== src/Analytics.antt =====
-- app/analytics: click events on their way from a redirect to the database.
pub mod Events
pub mod Processor
pub mod RoundTrip
