-- ===== src/Dblayer/Instrument.antt =====
-- The instruments of dblayer/src/mysql/DBOperation.cpp.
pub mod Fields
pub mod Reader
pub mod Operations
pub mod Laws
