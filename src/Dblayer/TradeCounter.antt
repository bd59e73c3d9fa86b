-- ===== src/Dblayer/TradeCounter.antt =====
-- The trade counters of dblayer/src/mysql/DBOperation.cpp.
pub mod Fields
pub mod Reader
pub mod Operations
pub mod Laws
