-- ===== src/Routes/Parts.antt =====
-- Server/include/WebRoutes/Parts.h: suppliers, part groups and parts.
pub mod Suppliers
pub mod Groups
pub mod Items
