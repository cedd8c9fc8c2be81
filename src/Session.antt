-- ===== src/Session.antt =====
-- Server/include/Network.h: the cookies of a request, permission levels and the session table.
pub mod Cookies
pub mod Levels
pub mod Table
pub mod Unique
pub mod Draws
pub mod Header
