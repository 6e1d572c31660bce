-- ===== src/Web.antt =====
-- apps/web: who may see and do what.
pub mod Views
pub mod Access
pub mod Tokens
pub mod Gate
