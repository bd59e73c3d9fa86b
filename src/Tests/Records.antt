-- ===== src/Tests/Records.antt =====
-- Records of the tables, for the tests.
pub mod Order
pub mod Trade
pub mod Account
pub mod Position
pub mod CashFlow
pub mod Tables
