-- ===== src/Dblayer/Confirmation/Fields.antt =====
-- SettlementSheetConfirmInfoField as dblayer/src/mysql/DBOperation.cpp uses it: the fields that it writes to the table of confirmations
-- and reads from it, in the order of the columns. The struct is declared in pbserdes/ETPTypes.h, outside
-- the repository: a `char` array is the text before its NUL, and its capacity is not modelled.
use vs2017code.Base.{Bytes, List, [], ◌∷◌}
use vs2017code.Dblayer.Platform.{Platform}

pub record SettlementSheetConfirmInfoField (p : Platform) : Type 0 where
  pub broker_id : Bytes
  pub investor_id : Bytes
  pub confirm_date : Bytes
  pub confirm_time : Bytes

module _ {p : Platform} where
  -- The values of the statement, one for each column.
  unfoldable pub settlement_confirm_info_cells : SettlementSheetConfirmInfoField p → List Bytes
  settlement_confirm_info_cells info =
      info.broker_id ∷ info.investor_id ∷ info.confirm_date ∷ info.confirm_time ∷ []
