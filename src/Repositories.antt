-- ===== src/Repositories.antt =====
-- app/repositories: the queries of the program, as actions on the database.
pub mod Query
pub mod Ordered
pub mod BaseRepository
pub mod Analytics
pub mod ShortUrls
pub mod ClickEvents
pub mod Groups
pub mod RefreshTokens
pub mod Users
