-- ===== src/Dblayer.antt =====
-- dblayer: the database layer over the MySQL C API.
pub mod Tables
pub mod Platform
pub mod Database
pub mod RecordSet
pub mod Operation
pub mod Statement
pub mod Single
pub mod NewId
pub mod Order
pub mod Trade
pub mod Account
pub mod Position
pub mod CashFlow
pub mod ExecOrder
pub mod PositionDetail
pub mod CloudOrder
pub mod LastTick
pub mod AutoStopLoss
pub mod TradeCounter
pub mod Confirmation
pub mod DailyFlag
pub mod SettlementSheet
pub mod TradeRisk
pub mod Investor
pub mod Exchange
pub mod Broker
pub mod Product
pub mod Instrument
pub mod MarginModel
pub mod MarginRate
pub mod CommissionModel
pub mod CommissionRate
pub mod LoginLog
pub mod Members
