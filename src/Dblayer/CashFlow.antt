-- ===== src/Dblayer/CashFlow.antt =====
-- The cash flows of dblayer/src/mysql/DBOperation.cpp and their history.
pub mod Fields
pub mod Reader
pub mod Operations
pub mod Laws
