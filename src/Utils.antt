-- ===== src/Utils.antt =====
-- app/utils
pub mod ShortCode
pub mod UrlValidator
pub mod UserAgent
