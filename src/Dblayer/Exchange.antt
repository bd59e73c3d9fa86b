-- ===== src/Dblayer/Exchange.antt =====
-- The exchanges of dblayer/src/mysql/DBOperation.cpp.
pub mod Fields
pub mod Reader
pub mod Operations
