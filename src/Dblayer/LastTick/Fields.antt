-- ===== src/Dblayer/LastTick/Fields.antt =====
-- DepthMarketDataField as dblayer/src/mysql/DBOperation.cpp uses it: the fields that it writes to the table of last ticks
-- and reads from it, in the order of the columns. The struct is declared in pbserdes/ETPTypes.h, outside
-- the repository: a `char` array is the text before its NUL, and its capacity is not modelled.
use vs2017code.Base.{Bytes, List, [], ◌∷◌}
use vs2017code.Dblayer.Platform.{Platform}

pub record DepthMarketDataField (p : Platform) : Type 0 where
  pub trading_day : Bytes
  pub instrument_id : Bytes
  pub exchange_id : Bytes
  pub last_price : p.Double
  pub open_price : p.Double
  pub highest_price : p.Double
  pub lowest_price : p.Double
  pub close_price : p.Double
  pub open_interest : p.Double
  pub turnover : p.Double
  pub update_time : Bytes
  pub update_millisec : p.Int

module _ {p : Platform} where
  -- The values of the statement, one for each column.
  unfoldable pub last_tick_cells : DepthMarketDataField p → List Bytes
  last_tick_cells tick =
      tick.trading_day
      ∷ tick.instrument_id
      ∷ tick.exchange_id
      ∷ p.print_double tick.last_price
      ∷ p.print_double tick.open_price
      ∷ p.print_double tick.highest_price
      ∷ p.print_double tick.lowest_price
      ∷ p.print_double tick.close_price
      ∷ p.print_double tick.open_interest
      ∷ p.print_double tick.turnover
      ∷ tick.update_time
      ∷ p.print_int tick.update_millisec
      ∷ []
