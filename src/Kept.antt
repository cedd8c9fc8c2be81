-- ===== src/Kept.antt =====
-- What each route does to the session table.
pub mod Parts
pub mod Auth
pub mod Users
pub mod Vehicles
pub mod Services
