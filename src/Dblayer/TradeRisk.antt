-- ===== src/Dblayer/TradeRisk.antt =====
-- The templates for trade risk of dblayer/src/mysql/DBOperation.cpp.
pub mod Fields
pub mod Reader
pub mod Operations
pub mod Laws
