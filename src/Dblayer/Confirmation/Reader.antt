-- ===== src/Dblayer/Confirmation/Reader.antt =====
-- How the readers of the table of confirmations fill a SettlementSheetConfirmInfoField from a row, column by column.
use vs2017code.Base.{Option, some}
use vs2017code.Dblayer.Platform.{Platform}
use vs2017code.Dblayer.RecordSet.{Record, cell}
use vs2017code.Base.Chain.{◌>>=◌}
use vs2017code.Dblayer.Statement.{first_char, poke_first}
use vs2017code.Dblayer.Confirmation.Fields.{SettlementSheetConfirmInfoField}

module _ {p : Platform} where
  -- The assignments of one round of the loop to `field`, which holds what the last round left;
  -- `none` is a column that the row does not have.
  unfoldable pub read_settlement_confirm_info :
      SettlementSheetConfirmInfoField p → Record → Option (SettlementSheetConfirmInfoField p)
  unfolding cell first_char poke_first
  read_settlement_confirm_info field row = do
    broker_id ← cell row 0
    investor_id ← cell row 1
    confirm_date ← cell row 2
    confirm_time ← cell row 3
    some (record {
      broker_id = broker_id;
      investor_id = investor_id;
      confirm_date = confirm_date;
      confirm_time = confirm_time;
    })
