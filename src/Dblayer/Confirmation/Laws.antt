-- ===== src/Dblayer/Confirmation/Laws.antt =====
-- What is written to the table of confirmations is what is read from it.
use vs2017code.Base.{
  ℕ, ◌^◌, ◌<◌, ◌≡◌, refl, Bytes, List, ◌∷◌, map, Option, some, length, c_string, pos,
}
use vs2017code.Dblayer.Platform.{Platform, ConversionsRoundTrip, result_set, Session, ok}
use vs2017code.Dblayer.Tables
use vs2017code.Dblayer.RecordSet.{cell_text}
use vs2017code.Dblayer.Operation.{ensure_connected}
use vs2017code.Dblayer.Statement.{select_where, of_investor}
use vs2017code.Dblayer.Single.{query_row_found}
use vs2017code.Dblayer.Confirmation.Operations.{get_settlement_confirm_info}
use vs2017code.Dblayer.Confirmation.Fields.{
  SettlementSheetConfirmInfoField, settlement_confirm_info_cells,
}
use vs2017code.Dblayer.Confirmation.Reader.{read_settlement_confirm_info}

-- Each of the 4 columns that are written is read into the field that it was written from.
pub read_settlement_confirm_info-settlement_confirm_info_cells :
    {p : Platform} (laws : ConversionsRoundTrip p) (field info : SettlementSheetConfirmInfoField p)
    → read_settlement_confirm_info field (settlement_confirm_info_cells info) ≡ some info
unfolding read_settlement_confirm_info settlement_confirm_info_cells
read_settlement_confirm_info-settlement_confirm_info_cells laws field info = refl

-- GetSettlementConfirmInfo, when the check of the connection passes and the server answers its
-- query with rows of which the first is that of a confirmation, returns 1 and fills in exactly
-- this confirmation.
pub get_settlement_confirm_info_stored :
    {p : Platform} (laws : ConversionsRoundTrip p)
    (field stored : SettlementSheetConfirmInfoField p) (broker_id investor_id : Bytes)
    (s t : Session p) (fields : List (Bytes × ℕ)) (raw : List (Option Bytes))
    (raws : List (List (Option Bytes))) (server : p.Server)
    → ensure_connected s ≡ (ok tt, t)
    → p.real_query t.server (
        c_string
          (select_where Tables.settlement_confirm_info_table (of_investor broker_id investor_id)))
      ≡ (result_set fields (raw ∷ raws), server)
    → length (raw ∷ raws) < 2 ^ 31
    → map cell_text raw ≡ settlement_confirm_info_cells stored
    → get_settlement_confirm_info field broker_id investor_id s
      ≡ (ok (pos 1, stored), record t { server = server })
unfolding get_settlement_confirm_info
get_settlement_confirm_info_stored laws field stored broker_id investor_id s t fields raw raws
      server c q size same =
    query_row_found read_settlement_confirm_info field _ s t server _ fields raw raws stored c q
      size (rw same (read_settlement_confirm_info-settlement_confirm_info_cells laws field stored))
