-- ===== src/Dblayer/CommissionRate/Reader.antt =====
-- How the readers of the table of commission rates fill a CommissionRateInfoField from a row, column by column.
use vs2017code.Base.{Option, some}
use vs2017code.Dblayer.Platform.{Platform}
use vs2017code.Dblayer.RecordSet.{Record, cell}
use vs2017code.Base.Chain.{◌>>=◌}
use vs2017code.Dblayer.Statement.{first_char, poke_first}
use vs2017code.Dblayer.CommissionRate.Fields.{CommissionRateInfoField}

module _ {p : Platform} where
  -- The assignments of one round of the loop to `field`, which holds what the last round left;
  -- `none` is a column that the row does not have.
  unfoldable pub read_commission_rate :
      CommissionRateInfoField p → Record → Option (CommissionRateInfoField p)
  unfolding cell first_char poke_first
  read_commission_rate field row = do
    instrument_id ← cell row 0
    investor_range ← cell row 1
    open_ratio_by_money ← cell row 2
    open_ratio_by_volume ← cell row 3
    close_ratio_by_money ← cell row 4
    close_ratio_by_volume ← cell row 5
    close_today_ratio_by_money ← cell row 6
    close_today_ratio_by_volume ← cell row 7
    some (record field {
      instrument_id = instrument_id;
      investor_range = investor_range;
      open_ratio_by_money = p.to_double open_ratio_by_money;
      open_ratio_by_volume = p.to_double open_ratio_by_volume;
      close_ratio_by_money = p.to_double close_ratio_by_money;
      close_ratio_by_volume = p.to_double close_ratio_by_volume;
      close_today_ratio_by_money = p.to_double close_today_ratio_by_money;
      close_today_ratio_by_volume = p.to_double close_today_ratio_by_volume;
    })
