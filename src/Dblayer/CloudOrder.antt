-- ===== src/Dblayer/CloudOrder.antt =====
-- The cloud orders of dblayer/src/mysql/DBOperation.cpp.
pub mod Fields
pub mod Reader
pub mod Operations
pub mod Laws
