-- ===== src/Dblayer/PositionDetail/Fields.antt =====
-- InvestorPositionDetailField as dblayer/src/mysql/DBOperation.cpp uses it: the fields that it writes to the table of position details
-- and reads from it, in the order of the columns. The struct is declared in pbserdes/ETPTypes.h, outside
-- the repository: a `char` array is the text before its NUL, and its capacity is not modelled.
use vs2017code.Base.{ℕ, Bytes, List, [], ◌∷◌}
use vs2017code.Dblayer.Platform.{Platform}

pub record InvestorPositionDetailField (p : Platform) : Type 0 where
  pub broker_id : Bytes
  pub investor_id : Bytes
  pub instrument_id : Bytes
  pub direction : ℕ
  pub hedge_flag : ℕ
  pub open_date : Bytes
  pub trade_id : Bytes
  pub open_price : p.Double
  pub volume : p.Int
  pub trade_type : ℕ
  pub comb_instrument_id : Bytes
  pub exchange_id : Bytes
  pub margin : p.Double
  pub last_settlement_price : p.Double
  pub trading_day : Bytes

module _ {p : Platform} where
  -- The values of the statement, one for each column.
  unfoldable pub position_detail_cells : InvestorPositionDetailField p → List Bytes
  position_detail_cells detail =
      detail.broker_id
      ∷ detail.investor_id
      ∷ detail.instrument_id
      ∷ (detail.direction ∷ [])
      ∷ (detail.hedge_flag ∷ [])
      ∷ detail.open_date
      ∷ detail.trade_id
      ∷ p.print_double detail.open_price
      ∷ p.print_int detail.volume
      ∷ (detail.trade_type ∷ [])
      ∷ detail.comb_instrument_id
      ∷ detail.exchange_id
      ∷ p.print_double detail.margin
      ∷ p.print_double detail.last_settlement_price
      ∷ detail.trading_day
      ∷ []
