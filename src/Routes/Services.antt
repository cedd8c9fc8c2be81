-- ===== src/Routes/Services.antt =====
-- Server/include/WebRoutes/Services.h: requests, authorised services and their parts.
pub mod Lifecycle
pub mod ServiceParts
pub mod Listing
pub mod Details
pub mod Authorising
