-- ===== src/Translator.antt =====
-- Translator/src/Source.cpp: pages of HTML with HTMT tags, filled from a response.
pub mod Condition
pub mod Page
pub mod Search
pub mod Parse
pub mod Forward
pub mod Links
pub mod Handles
