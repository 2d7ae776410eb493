-- ===== src/Core.antt =====
-- app/core: exceptions, settings, and the actions in which the rest of the program is written.
pub mod Errors
pub mod Action
pub mod Settings
pub mod Security
pub mod Session
pub mod World
