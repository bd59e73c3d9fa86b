-- ===== src/Dblayer/MarginRate/Reader.antt =====
-- How the readers of the table of margin rates fill a MarginRateInfoField from a row, column by column.
use vs2017code.Base.{Option, some}
use vs2017code.Dblayer.Platform.{Platform}
use vs2017code.Dblayer.RecordSet.{Record, cell}
use vs2017code.Base.Chain.{◌>>=◌}
use vs2017code.Dblayer.Statement.{first_char, poke_first}
use vs2017code.Dblayer.MarginRate.Fields.{MarginRateInfoField}

module _ {p : Platform} where
  -- The assignments of one round of the loop to `field`, which holds what the last round left;
  -- `none` is a column that the row does not have.
  unfoldable pub read_margin_rate : MarginRateInfoField p → Record → Option (MarginRateInfoField p)
  unfolding cell first_char poke_first
  read_margin_rate field row = do
    instrument_id ← cell row 0
    investor_range ← cell row 1
    hedge_flag ← cell row 2
    long_margin_ratio_by_money ← cell row 3
    long_margin_ratio_by_volume ← cell row 4
    short_margin_ratio_by_money ← cell row 5
    short_margin_ratio_by_volume ← cell row 6
    is_relative ← cell row 7
    some (record field {
      instrument_id = instrument_id;
      investor_range = investor_range;
      hedge_flag = hedge_flag;
      long_margin_ratio_by_money = p.to_double long_margin_ratio_by_money;
      long_margin_ratio_by_volume = p.to_double long_margin_ratio_by_volume;
      short_margin_ratio_by_money = p.to_double short_margin_ratio_by_money;
      short_margin_ratio_by_volume = p.to_double short_margin_ratio_by_volume;
      is_relative = p.to_int is_relative;
    })
