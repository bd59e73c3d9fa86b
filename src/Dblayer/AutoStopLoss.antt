-- ===== src/Dblayer/AutoStopLoss.antt =====
-- The limits for stopping losses of dblayer/src/mysql/DBOperation.cpp.
pub mod Fields
pub mod Reader
pub mod Operations
pub mod Laws
