-- ===== src/Dblayer/Trade/Fields.antt =====
-- TradeField as dblayer/src/mysql/DBOperation.cpp uses it: the fields that it writes to the trade tables
-- and reads from it, in the order of the columns. The struct is declared in pbserdes/ETPTypes.h, outside
-- the repository: a `char` array is the text before its NUL, and its capacity is not modelled.
use vs2017code.Base.{ℕ, Bytes, List, [], ◌∷◌}
use vs2017code.Dblayer.Platform.{Platform}

pub record TradeField (p : Platform) : Type 0 where
  pub broker_id : Bytes
  pub investor_id : Bytes
  pub instrument_id : Bytes
  pub order_ref : Bytes
  pub user_id : Bytes
  pub exchange_id : Bytes
  pub trade_id : Bytes
  pub direction : ℕ
  pub order_sys_id : Bytes
  pub participant_id : Bytes
  pub client_id : Bytes
  pub trading_role : ℕ
  pub exchange_inst_id : Bytes
  pub offset_flag : ℕ
  pub hedge_flag : ℕ
  pub price : p.Double
  pub volume : p.Int
  pub trade_date : Bytes
  pub trade_time : Bytes
  pub trade_type : ℕ
  pub price_source : ℕ
  pub order_local_id : Bytes
  pub clearing_part_id : Bytes
  pub business_unit : Bytes
  pub sequence_no : p.Int
  pub trading_day : Bytes
  pub settlement_id : p.Int
  pub broker_order_seq : p.Int
  pub trade_source : ℕ
  pub close_profit : p.Double
  pub commission : p.Double

module _ {p : Platform} where
  -- The values of the statement, one for each column.
  unfoldable pub trade_cells : TradeField p → List Bytes
  trade_cells trade =
      trade.broker_id
      ∷ trade.investor_id
      ∷ trade.instrument_id
      ∷ trade.order_ref
      ∷ trade.user_id
      ∷ trade.exchange_id
      ∷ trade.trade_id
      ∷ (trade.direction ∷ [])
      ∷ trade.order_sys_id
      ∷ trade.participant_id
      ∷ trade.client_id
      ∷ (trade.trading_role ∷ [])
      ∷ trade.exchange_inst_id
      ∷ (trade.offset_flag ∷ [])
      ∷ (trade.hedge_flag ∷ [])
      ∷ p.print_double trade.price
      ∷ p.print_int trade.volume
      ∷ trade.trade_date
      ∷ trade.trade_time
      ∷ (trade.trade_type ∷ [])
      ∷ (trade.price_source ∷ [])
      ∷ trade.order_local_id
      ∷ trade.clearing_part_id
      ∷ trade.business_unit
      ∷ p.print_int trade.sequence_no
      ∷ trade.trading_day
      ∷ p.print_int trade.settlement_id
      ∷ p.print_int trade.broker_order_seq
      ∷ (trade.trade_source ∷ [])
      ∷ p.print_double trade.close_profit
      ∷ p.print_double trade.commission
      ∷ []
