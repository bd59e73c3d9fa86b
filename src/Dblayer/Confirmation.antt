-- ===== src/Dblayer/Confirmation.antt =====
-- The confirmations of settlement sheets of dblayer/src/mysql/DBOperation.cpp.
pub mod Fields
pub mod Reader
pub mod Operations
pub mod Laws
