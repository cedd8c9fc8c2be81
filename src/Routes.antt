-- ===== src/Routes.antt =====
-- Server/include/WebRoutes: the request handlers, by the tables that they serve.
pub mod Auth
pub mod Users
pub mod Parts
pub mod Vehicles
pub mod Services
