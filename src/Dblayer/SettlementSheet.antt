-- ===== src/Dblayer/SettlementSheet.antt =====
-- The settlement sheets of dblayer/src/mysql/DBOperation.cpp. The struct is declared in
-- pbserdes/ETPTypes.h, outside the repository.
pub mod Laws
use vs2017code.Base.{ℕ, Bytes, codes, Bool, List, [], ◌∷◌, ◌++◌, Option, ℤ}
use vs2017code.Dblayer.Platform.{Platform, M}
use vs2017code.Dblayer.Database.{minus_one}
use vs2017code.Dblayer.RecordSet.{Record, cell}
use vs2017code.Dblayer.Tables.{settlement_sheet_table}
use vs2017code.Dblayer.Operation.{run_update}
use vs2017code.Dblayer.Statement.{
  replace_into, select_where, delete_where, equals, ◌and◌, of_investor,
}
use vs2017code.Dblayer.Single.{query_row}

-- The parts of a sheet in one of its two languages, in their order.
pub record SheetText : Type 0 where
  pub header_string : Bytes
  pub date_string : Bytes
  pub equity_string : Bytes
  pub equity_adjust_string : Bytes
  pub trade_string : Bytes
  pub position_string : Bytes
  pub position_adjust_string : Bytes
  pub tail_string : Bytes

pub record SettlementSheetField (p : Platform) : Type 0 where
  pub broker_id : Bytes
  pub investor_id : Bytes
  pub settlement_date : Bytes
  pub settlement_id : p.Int
  pub chinese : SheetText
  pub english : SheetText

unfoldable pub sheet_text : SheetText → Bytes
sheet_text t =
    t.header_string
    ++ (t.date_string
        ++ (t.equity_string
            ++ (t.equity_adjust_string
                ++ (t.trade_string
                    ++ (t.position_string ++ (t.position_adjust_string ++ t.tail_string))))))

-- `strSettlementSheet = recordSet[0][0];`
unfoldable pub read_settlement_sheet : Bytes → Record → Option Bytes
unfolding cell
read_settlement_sheet sheet row = cell row 0

module _ {p : Platform} where
  unfoldable pub settlement_sheet_cells : SettlementSheetField p → List Bytes
  unfolding sheet_text
  settlement_sheet_cells field =
      field.broker_id
      ∷ field.investor_id
      ∷ field.settlement_date
      ∷ p.print_int field.settlement_id
      ∷ (sheet_text field.chinese ++ sheet_text field.english)
      ∷ []

  unfoldable pub upd_settlement_sheet : SettlementSheetField p → M p Bool
  unfolding settlement_sheet_cells
  upd_settlement_sheet field =
      run_update (replace_into settlement_sheet_table (settlement_sheet_cells field))

  unfoldable pub get_settlement_sheet : Bytes → Bytes → Bytes → Bytes → M p (ℤ × Bytes)
  unfolding read_settlement_sheet
  get_settlement_sheet sheet broker_id investor_id trading_day =
      query_row read_settlement_sheet sheet minus_one (
        select_where settlement_sheet_table
          (of_investor broker_id investor_id and equals (codes "TradingDay") trading_day))

  unfoldable pub del_investor_settlement_sheet : Bytes → Bytes → M p Bool
  del_investor_settlement_sheet broker_id investor_id =
      run_update (delete_where settlement_sheet_table (of_investor broker_id investor_id))
