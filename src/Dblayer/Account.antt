-- ===== src/Dblayer/Account.antt =====
-- The accounts and the settled accounts of dblayer/src/mysql/DBOperation.cpp.
pub mod Fields
pub mod Reader
pub mod Operations
pub mod Laws
