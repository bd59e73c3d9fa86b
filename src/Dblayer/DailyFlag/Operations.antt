-- ===== src/Dblayer/DailyFlag/Operations.antt =====
-- The operations on the table of daily settlements.
use vs2017code.Base.{codes, Bool, ◌++◌, ℤ}
use vs2017code.Dblayer.Platform.{Platform, M}
use vs2017code.Dblayer.Database.{minus_one}
use vs2017code.Dblayer.Tables.{daily_settlement_flag_table}
use vs2017code.Dblayer.Operation.{run_update}
use vs2017code.Dblayer.Statement.{replace_into}
use vs2017code.Dblayer.Single.{query_row}
use vs2017code.Dblayer.DailyFlag.Fields.{DailySettlementFlagField, daily_settlement_flag_cells}
use vs2017code.Dblayer.DailyFlag.Reader.{read_daily_settlement_flag}

module _ {p : Platform} where
  unfoldable pub upd_daily_settlement_flag : DailySettlementFlagField p → M p Bool
  upd_daily_settlement_flag flag =
      run_update (replace_into daily_settlement_flag_table (daily_settlement_flag_cells flag))

  unfoldable pub get_last_daily_settlement_flag :
      DailySettlementFlagField p → M p (ℤ × DailySettlementFlagField p)
  get_last_daily_settlement_flag field = query_row read_daily_settlement_flag field minus_one (
      codes "SELECT * FROM `"
      ++ (daily_settlement_flag_table ++ codes "` order by id desc limit 1;"))
