-- ===== src/Dblayer/CommissionRate.antt =====
-- The commission rates of dblayer/src/mysql/DBOperation.cpp.
pub mod Fields
pub mod Reader
pub mod Operations
pub mod Laws
