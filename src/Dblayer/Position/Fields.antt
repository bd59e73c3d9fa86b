-- ===== src/Dblayer/Position/Fields.antt =====
-- InvestorPositionField as dblayer/src/mysql/DBOperation.cpp uses it: the fields that it writes to the position tables
-- and reads from it, in the order of the columns. The struct is declared in pbserdes/ETPTypes.h, outside
-- the repository: a `char` array is the text before its NUL, and its capacity is not modelled.
use vs2017code.Base.{ℕ, Bytes, List, [], ◌∷◌}
use vs2017code.Dblayer.Platform.{Platform}

pub record InvestorPositionField (p : Platform) : Type 0 where
  pub trading_day : Bytes
  pub broker_id : Bytes
  pub investor_id : Bytes
  pub instrument_id : Bytes
  pub posi_direction : ℕ
  pub hedge_flag : ℕ
  pub avg_position_price : p.Double
  pub position_date : ℕ
  pub yd_position : p.Int
  pub position : p.Int
  pub long_frozen : p.Int
  pub short_frozen : p.Int
  pub long_frozen_amount : p.Double
  pub short_frozen_amount : p.Double
  pub open_volume : p.Int
  pub close_volume : p.Int
  pub open_amount : p.Double
  pub close_amount : p.Double
  pub position_cost : p.Double
  pub pre_margin : p.Double
  pub use_margin : p.Double
  pub frozen_margin : p.Double
  pub frozen_cash : p.Double
  pub frozen_commission : p.Double
  pub cash_in : p.Double
  pub commission : p.Double
  pub close_profit : p.Double
  pub position_profit : p.Double
  pub pre_settlement_price : p.Double
  pub settlement_price : p.Double
  pub settlement_id : p.Int
  pub open_cost : p.Double
  pub exchange_margin : p.Double
  pub comb_position : p.Int
  pub comb_long_frozen : p.Int
  pub comb_short_frozen : p.Int
  pub close_profit_by_date : p.Double
  pub close_profit_by_trade : p.Double
  pub today_position : p.Int
  pub margin_rate_by_money : p.Double
  pub margin_rate_by_volume : p.Double
  pub closable_num : p.Int
  pub today_closable_num : p.Int

module _ {p : Platform} where
  -- The values of the statement, one for each column.
  unfoldable pub position_cells : InvestorPositionField p → List Bytes
  position_cells position =
      position.trading_day
      ∷ position.broker_id
      ∷ position.investor_id
      ∷ position.instrument_id
      ∷ (position.posi_direction ∷ [])
      ∷ (position.hedge_flag ∷ [])
      ∷ p.print_double position.avg_position_price
      ∷ (position.position_date ∷ [])
      ∷ p.print_int position.yd_position
      ∷ p.print_int position.position
      ∷ p.print_int position.long_frozen
      ∷ p.print_int position.short_frozen
      ∷ p.print_double position.long_frozen_amount
      ∷ p.print_double position.short_frozen_amount
      ∷ p.print_int position.open_volume
      ∷ p.print_int position.close_volume
      ∷ p.print_double position.open_amount
      ∷ p.print_double position.close_amount
      ∷ p.print_double position.position_cost
      ∷ p.print_double position.pre_margin
      ∷ p.print_double position.use_margin
      ∷ p.print_double position.frozen_margin
      ∷ p.print_double position.frozen_cash
      ∷ p.print_double position.frozen_commission
      ∷ p.print_double position.cash_in
      ∷ p.print_double position.commission
      ∷ p.print_double position.close_profit
      ∷ p.print_double position.position_profit
      ∷ p.print_double position.pre_settlement_price
      ∷ p.print_double position.settlement_price
      ∷ p.print_int position.settlement_id
      ∷ p.print_double position.open_cost
      ∷ p.print_double position.exchange_margin
      ∷ p.print_int position.comb_position
      ∷ p.print_int position.comb_long_frozen
      ∷ p.print_int position.comb_short_frozen
      ∷ p.print_double position.close_profit_by_date
      ∷ p.print_double position.close_profit_by_trade
      ∷ p.print_int position.today_position
      ∷ p.print_double position.margin_rate_by_money
      ∷ p.print_double position.margin_rate_by_volume
      ∷ p.print_int position.closable_num
      ∷ p.print_int position.today_closable_num
      ∷ []
