-- ===== src/Dblayer/MarginModel.antt =====
-- The models of margin rates of dblayer/src/mysql/DBOperation.cpp.
pub mod Fields
pub mod Reader
pub mod Operations
