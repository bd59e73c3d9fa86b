-- ===== src/Dblayer/DailyFlag/Fields.antt =====
-- DailySettlementFlagField as dblayer/src/mysql/DBOperation.cpp uses it: the fields that it writes to the table of daily settlements
-- and reads from it, in the order of the columns. The struct is declared in pbserdes/ETPTypes.h, outside
-- the repository: a `char` array is the text before its NUL, and its capacity is not modelled.
use vs2017code.Base.{Bytes, List, [], ◌∷◌}
use vs2017code.Dblayer.Platform.{Platform}

pub record DailySettlementFlagField (p : Platform) : Type 0 where
  pub daily_settlement_flag_id : p.Int
  pub settlement_date : Bytes
  pub settlement_time : Bytes
  pub settlement_flag : Bytes
  pub settlement_backup_flag : Bytes
  pub backup_time : Bytes
  pub user_code : Bytes
  pub need_settlement_date : Bytes
  pub comment : Bytes
  pub is_night_close : p.Int

module _ {p : Platform} where
  -- The values of the statement, one for each column.
  unfoldable pub daily_settlement_flag_cells : DailySettlementFlagField p → List Bytes
  daily_settlement_flag_cells flag =
      p.print_int flag.daily_settlement_flag_id
      ∷ flag.settlement_date
      ∷ flag.settlement_time
      ∷ flag.settlement_flag
      ∷ flag.settlement_backup_flag
      ∷ flag.backup_time
      ∷ flag.user_code
      ∷ flag.need_settlement_date
      ∷ flag.comment
      ∷ p.print_int flag.is_night_close
      ∷ []
