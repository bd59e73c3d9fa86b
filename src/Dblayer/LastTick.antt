-- ===== src/Dblayer/LastTick.antt =====
-- The last ticks of dblayer/src/mysql/DBOperation.cpp.
pub mod Fields
pub mod Reader
pub mod Operations
pub mod Laws
