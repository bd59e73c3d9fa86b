-- ===== src/Dblayer/Position.antt =====
-- The positions of dblayer/src/mysql/DBOperation.cpp.
pub mod Fields
pub mod Reader
pub mod Operations
pub mod Laws
