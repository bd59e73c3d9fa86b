-- ===== src/Dblayer/Position/Laws.antt =====
-- What is written to the position table is what is read from it.
use vs2017code.Base.{
  ℕ, ◌^◌, ◌<◌, ◌≡◌, Bytes, true, false, List, [], ◌∷◌, ◌++◌, map, Option, some, length, c_string,
}
use vs2017code.Dblayer.Platform.{Platform, ConversionsRoundTrip, result_set, Session, ok}
use vs2017code.Dblayer.Tables.{position_table}
use vs2017code.Dblayer.RecordSet.{cell_text}
use vs2017code.Dblayer.Operation.{ensure_connected}
use vs2017code.Dblayer.Statement.{select_where, of_investor}
use vs2017code.Dblayer.Statement.Rows.{Reads}
use vs2017code.Dblayer.Single.{query_rows_some_success}
use vs2017code.Dblayer.Position.Fields.{InvestorPositionField, position_cells}
use vs2017code.Dblayer.Position.Reader.{read_position}
use vs2017code.Dblayer.Position.Operations.{get_positions}

-- Each of the 43 columns that UpdPosition writes is read into the field that it was written from.
pub read_position-position_cells :
    {p : Platform} (laws : ConversionsRoundTrip p) (field position : InvestorPositionField p)
    → read_position field (position_cells position) ≡ some position
unfolding read_position position_cells
read_position-position_cells laws field position =
    simp (laws.to_int-print_int, laws.to_double-print_double)

stored_Reads :
    {p : Platform} (laws : ConversionsRoundTrip p) (field : InvestorPositionField p)
    (positions : List (InvestorPositionField p))
    → Reads read_position field (map position_cells positions) positions
stored_Reads laws field [] = tt
stored_Reads laws field (x ∷ positions) =
    (read_position-position_cells laws field x, stored_Reads laws x positions)

-- GetPositions, when the check of the connection passes and the server answers its query with the
-- rows of some positions, fewer than 2^31, returns true and appends exactly these positions, in the
-- server's order, except that without any row it returns false.
pub get_positions_stored :
    {p : Platform} (laws : ConversionsRoundTrip p) (field : InvestorPositionField p)
    (vec positions : List (InvestorPositionField p)) (broker_id investor_id : Bytes)
    (s t : Session p) (fields : List (Bytes × ℕ)) (raws : List (List (Option Bytes)))
    (server : p.Server)
    → ensure_connected s ≡ (ok tt, t)
    → p.real_query t.server
        (c_string (select_where position_table (of_investor broker_id investor_id)))
      ≡ (result_set fields raws, server)
    → length raws < 2 ^ 31
    → map (map cell_text) raws ≡ map position_cells positions
    → get_positions field vec broker_id investor_id s ≡ (
      ok (elim raws [ [] ↦ (false, vec) | raw ∷ rest ↦ (true, vec ++ positions) ]),
      record t { server = server },
    )
unfolding get_positions
get_positions_stored laws field vec positions broker_id investor_id s t fields raws server c q size
      stored =
    query_rows_some_success read_position field _ s t server fields raws positions vec c q size
      (rw stored (stored_Reads laws field positions))
