-- ===== src/Dblayer/CommissionRate/Fields.antt =====
-- CommissionRateInfoField as dblayer/src/mysql/DBOperation.cpp uses it: the fields that it writes to the table of commission rates
-- and reads from it, in the order of the columns. The struct is declared in pbserdes/ETPTypes.h, outside
-- the repository: a `char` array is the text before its NUL, and its capacity is not modelled.
use vs2017code.Base.{Bytes, List, [], ◌∷◌}
use vs2017code.Dblayer.Platform.{Platform}

pub record CommissionRateInfoField (p : Platform) : Type 0 where
  pub commission_rate_model_id : p.Int
  pub instrument_id : Bytes
  pub investor_range : Bytes
  pub open_ratio_by_money : p.Double
  pub open_ratio_by_volume : p.Double
  pub close_ratio_by_money : p.Double
  pub close_ratio_by_volume : p.Double
  pub close_today_ratio_by_money : p.Double
  pub close_today_ratio_by_volume : p.Double

module _ {p : Platform} where
  -- The values of the statement, one for each column.
  unfoldable pub commission_rate_cells : CommissionRateInfoField p → List Bytes
  commission_rate_cells rate =
      rate.instrument_id
      ∷ rate.investor_range
      ∷ p.print_double rate.open_ratio_by_money
      ∷ p.print_double rate.open_ratio_by_volume
      ∷ p.print_double rate.close_ratio_by_money
      ∷ p.print_double rate.close_ratio_by_volume
      ∷ p.print_double rate.close_today_ratio_by_money
      ∷ p.print_double rate.close_today_ratio_by_volume
      ∷ []
