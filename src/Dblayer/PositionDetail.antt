-- ===== src/Dblayer/PositionDetail.antt =====
-- The position details of dblayer/src/mysql/DBOperation.cpp.
pub mod Fields
pub mod Reader
pub mod Operations
pub mod Laws
