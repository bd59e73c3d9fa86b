-- ===== src/Dblayer/PositionDetail/Laws.antt =====
-- What is written to the table of position details is what is read from it.
use vs2017code.Base.{
  ℕ, ◌^◌, ◌<◌, ◌≡◌, Bytes, true, false, List, [], ◌∷◌, ◌++◌, map, Option, some, length, c_string,
}
use vs2017code.Dblayer.Platform.{Platform, ConversionsRoundTrip, result_set, Session, ok}
use vs2017code.Dblayer.Tables
use vs2017code.Dblayer.RecordSet.{cell_text}
use vs2017code.Dblayer.Operation.{ensure_connected}
use vs2017code.Dblayer.Statement.{select_where, of_investor}
use vs2017code.Dblayer.Statement.Rows.{Reads-map}
use vs2017code.Dblayer.Single.{query_rows_some_success}
use vs2017code.Dblayer.PositionDetail.Operations.{get_position_details}
use vs2017code.Dblayer.PositionDetail.Fields.{InvestorPositionDetailField, position_detail_cells}
use vs2017code.Dblayer.PositionDetail.Reader.{read_position_detail}

-- Each of the 15 columns that are written is read into the field that it was written from.
pub read_position_detail-position_detail_cells :
    {p : Platform} (laws : ConversionsRoundTrip p) (field detail : InvestorPositionDetailField p)
    → read_position_detail field (position_detail_cells detail) ≡ some detail
unfolding read_position_detail position_detail_cells
read_position_detail-position_detail_cells laws field detail =
    simp (laws.to_int-print_int, laws.to_double-print_double)

-- GetPositionDetails, when the check of the connection passes and the server answers its query
-- with the rows of some position details, fewer than 2^31, returns true and appends exactly these,
-- in the server's order, except that without any row it returns false.
pub get_position_details_stored :
    {p : Platform} (laws : ConversionsRoundTrip p) (field : InvestorPositionDetailField p)
    (vec stored : List (InvestorPositionDetailField p)) (broker_id investor_id : Bytes)
    (s t : Session p) (fields : List (Bytes × ℕ)) (raws : List (List (Option Bytes)))
    (server : p.Server)
    → ensure_connected s ≡ (ok tt, t)
    → p.real_query t.server
        (c_string (select_where Tables.position_detail_table (of_investor broker_id investor_id)))
      ≡ (result_set fields raws, server)
    → length raws < 2 ^ 31
    → map (map cell_text) raws ≡ map position_detail_cells stored
    → get_position_details field vec broker_id investor_id s ≡ (
      ok (elim raws [ [] ↦ (false, vec) | raw ∷ rest ↦ (true, vec ++ stored) ]),
      record t { server = server },
    )
unfolding get_position_details
get_position_details_stored laws field vec stored broker_id investor_id s t fields raws server c q
      size same =
    query_rows_some_success read_position_detail field _ s t server fields raws stored vec c q size
      (rw same (
        Reads-map read_position_detail position_detail_cells
          (read_position_detail-position_detail_cells laws) field stored))
