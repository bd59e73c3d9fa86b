-- ===== src/Service.antt =====
-- The request handler of Deli_time_server/Deli_time_server: comServer::dealMessage of server.cc with
-- the gzip.cc, mysqlConnection.cc and mysqlPool.cc that it calls.
pub mod Result
pub mod Gzip
pub mod Database
pub mod Deal
