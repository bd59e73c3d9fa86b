-- ===== src/Quotes.antt =====
-- The quote client of quote_client/quote_client: the pending ticks, the price windows of a contract,
-- the results, and the clients of its server.
pub mod Ticks
pub mod Window
pub mod TradeTime
pub mod Packet
pub mod Deal
pub mod Client
pub mod Server
