-- ===== src/Dblayer/SettlementSheet/Laws.antt =====
-- The reader of a settlement sheet takes another column than its update writes the sheet to.
use vs2017code.Base.{
  ℕ, ◌^◌, ◌<◌, ◌≡◌, refl, Bytes, codes, List, ◌∷◌, map, Option, length, c_string, pos,
}
use vs2017code.Dblayer.Platform.{Platform, result_set, Session, ok}
use vs2017code.Dblayer.Tables.{settlement_sheet_table}
use vs2017code.Dblayer.RecordSet.{cell_text}
use vs2017code.Dblayer.Operation.{ensure_connected}
use vs2017code.Dblayer.Statement.{select_where, equals, ◌and◌, of_investor}
use vs2017code.Dblayer.Single.{query_row_found}
use vs2017code.Dblayer.SettlementSheet.{
  SettlementSheetField, settlement_sheet_cells, get_settlement_sheet, read_settlement_sheet,
}

-- GetSettlementSheet, when the check of the connection passes and the server answers its query with
-- rows of which the first is that of a stored sheet, returns 1 and the sheet's broker, not its text.
pub get_settlement_sheet_broker :
    {p : Platform} (stored : SettlementSheetField p)
    (sheet broker_id investor_id trading_day : Bytes) (s t : Session p) (fields : List (Bytes × ℕ))
    (raw : List (Option Bytes)) (raws : List (List (Option Bytes))) (server : p.Server)
    → ensure_connected s ≡ (ok tt, t)
    → p.real_query t.server (
        c_string (
          select_where settlement_sheet_table
            (of_investor broker_id investor_id and equals (codes "TradingDay") trading_day)))
      ≡ (result_set fields (raw ∷ raws), server)
    → length (raw ∷ raws) < 2 ^ 31
    → map cell_text raw ≡ settlement_sheet_cells stored
    → get_settlement_sheet sheet broker_id investor_id trading_day s
      ≡ (ok (pos 1, stored.broker_id), record t { server = server })
unfolding get_settlement_sheet settlement_sheet_cells read_settlement_sheet
get_settlement_sheet_broker stored sheet broker_id investor_id trading_day s t fields raw raws
      server c q size same =
    query_row_found read_settlement_sheet sheet _ s t server _ fields raw raws stored.broker_id c q
      size (rw same refl)
