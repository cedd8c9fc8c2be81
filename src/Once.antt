-- ===== src/Once.antt =====
-- Each route ends its response once.
pub mod Parts
pub mod Auth
pub mod Users
pub mod Vehicles
pub mod Services
