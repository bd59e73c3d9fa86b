-- ===== src/Dblayer/MarginRate/Fields.antt =====
-- MarginRateInfoField as dblayer/src/mysql/DBOperation.cpp uses it: the fields that it writes to the table of margin rates
-- and reads from it, in the order of the columns. The struct is declared in pbserdes/ETPTypes.h, outside
-- the repository: a `char` array is the text before its NUL, and its capacity is not modelled.
use vs2017code.Base.{Bytes, List, [], ◌∷◌}
use vs2017code.Dblayer.Platform.{Platform}

pub record MarginRateInfoField (p : Platform) : Type 0 where
  pub margin_rate_model_id : p.Int
  pub instrument_id : Bytes
  pub investor_range : Bytes
  pub hedge_flag : Bytes
  pub long_margin_ratio_by_money : p.Double
  pub long_margin_ratio_by_volume : p.Double
  pub short_margin_ratio_by_money : p.Double
  pub short_margin_ratio_by_volume : p.Double
  pub is_relative : p.Int

module _ {p : Platform} where
  -- The values of the statement, one for each column.
  unfoldable pub margin_rate_cells : MarginRateInfoField p → List Bytes
  margin_rate_cells rate =
      rate.instrument_id
      ∷ rate.investor_range
      ∷ rate.hedge_flag
      ∷ p.print_double rate.long_margin_ratio_by_money
      ∷ p.print_double rate.long_margin_ratio_by_volume
      ∷ p.print_double rate.short_margin_ratio_by_money
      ∷ p.print_double rate.short_margin_ratio_by_volume
      ∷ p.print_int rate.is_relative
      ∷ []
