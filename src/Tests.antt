-- ===== src/Tests.antt =====
-- Runs of the model at concrete inputs, and the theorems at inputs that meet their conditions.
pub mod Demo
pub mod Routes
pub mod Sessions
pub mod Responses
pub mod Parsing
pub mod Pages
pub mod Statements
pub mod Forwarding
pub mod Terminal
pub mod Ownership
