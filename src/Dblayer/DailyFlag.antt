-- ===== src/Dblayer/DailyFlag.antt =====
-- The flags of daily settlements of dblayer/src/mysql/DBOperation.cpp.
pub mod Fields
pub mod Reader
pub mod Operations
pub mod Laws
