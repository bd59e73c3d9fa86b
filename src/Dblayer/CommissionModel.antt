-- ===== src/Dblayer/CommissionModel.antt =====
-- The models of commission rates of dblayer/src/mysql/DBOperation.cpp.
pub mod Fields
pub mod Reader
pub mod Operations
