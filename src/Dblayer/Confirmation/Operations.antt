-- ===== src/Dblayer/Confirmation/Operations.antt =====
-- The operations on the table of confirmations.
use vs2017code.Base.{Bytes, Bool, ℤ}
use vs2017code.Dblayer.Platform.{Platform, M}
use vs2017code.Dblayer.Database.{minus_one}
use vs2017code.Dblayer.Tables.{settlement_confirm_info_table}
use vs2017code.Dblayer.Operation.{run_update}
use vs2017code.Dblayer.Statement.{replace_into, select_where, delete_where, of_investor}
use vs2017code.Dblayer.Single.{query_row}
use vs2017code.Dblayer.Confirmation.Fields.{
  SettlementSheetConfirmInfoField, settlement_confirm_info_cells,
}
use vs2017code.Dblayer.Confirmation.Reader.{read_settlement_confirm_info}

module _ {p : Platform} where
  unfoldable pub upd_settlement_confirm_info : SettlementSheetConfirmInfoField p → M p Bool
  upd_settlement_confirm_info info =
      run_update (replace_into settlement_confirm_info_table (settlement_confirm_info_cells info))

  unfoldable pub get_settlement_confirm_info :
      SettlementSheetConfirmInfoField p
      → Bytes
      → Bytes
      → M p (ℤ × SettlementSheetConfirmInfoField p)
  get_settlement_confirm_info field broker_id investor_id =
      query_row read_settlement_confirm_info field minus_one
        (select_where settlement_confirm_info_table (of_investor broker_id investor_id))

  unfoldable pub del_investor_settlement_confirm_info : Bytes → Bytes → M p Bool
  del_investor_settlement_confirm_info broker_id investor_id =
      run_update (delete_where settlement_confirm_info_table (of_investor broker_id investor_id))
