-- ===== src/Dblayer/DailyFlag/Reader.antt =====
-- How the readers of the table of daily settlements fill a DailySettlementFlagField from a row, column by column.
use vs2017code.Base.{Option, some}
use vs2017code.Dblayer.Platform.{Platform}
use vs2017code.Dblayer.RecordSet.{Record, cell}
use vs2017code.Base.Chain.{◌>>=◌}
use vs2017code.Dblayer.Statement.{first_char, poke_first}
use vs2017code.Dblayer.DailyFlag.Fields.{DailySettlementFlagField}

module _ {p : Platform} where
  -- The assignments of one round of the loop to `field`, which holds what the last round left;
  -- `none` is a column that the row does not have.
  unfoldable pub read_daily_settlement_flag :
      DailySettlementFlagField p → Record → Option (DailySettlementFlagField p)
  unfolding cell first_char poke_first
  read_daily_settlement_flag field row = do
    daily_settlement_flag_id ← cell row 0
    settlement_date ← cell row 1
    settlement_time ← cell row 2
    settlement_flag ← cell row 3
    settlement_backup_flag ← cell row 4
    backup_time ← cell row 5
    user_code ← cell row 6
    need_settlement_date ← cell row 7
    comment ← cell row 8
    is_night_close ← cell row 9
    some (record {
      daily_settlement_flag_id = p.to_int daily_settlement_flag_id;
      settlement_date = settlement_date;
      settlement_time = settlement_time;
      settlement_flag = settlement_flag;
      settlement_backup_flag = settlement_backup_flag;
      backup_time = backup_time;
      user_code = user_code;
      need_settlement_date = need_settlement_date;
      comment = comment;
      is_night_close = p.to_int is_night_close;
    })
