-- ===== src/Dblayer/Broker.antt =====
-- The brokers of dblayer/src/mysql/DBOperation.cpp.
pub mod Fields
pub mod Reader
pub mod Operations
