-- ===== src/Dblayer/AutoStopLoss/Laws.antt =====
-- What is written to the table of stop losses is what is read from it.
use vs2017code.Base.{
  ℕ, ◌^◌, ◌<◌, ◌≡◌, Bytes, true, false, List, [], ◌∷◌, ◌++◌, map, Option, some, length, c_string,
}
use vs2017code.Dblayer.Platform.{Platform, ConversionsRoundTrip, result_set, Session, ok}
use vs2017code.Dblayer.Tables
use vs2017code.Dblayer.RecordSet.{cell_text}
use vs2017code.Dblayer.Operation.{ensure_connected}
use vs2017code.Dblayer.Statement.{select_where}
use vs2017code.Dblayer.Statement.Rows.{Reads-map}
use vs2017code.Dblayer.Single.{query_rows_some_success}
use vs2017code.Dblayer.AutoStopLoss.Operations.{get_auto_stop_loss, of_investor_instrument}
use vs2017code.Dblayer.AutoStopLoss.Fields.{AutoStopLossField, auto_stop_loss_cells}
use vs2017code.Dblayer.AutoStopLoss.Reader.{read_auto_stop_loss}

-- Each of the 8 columns that are written is read into the field that it was written from.
pub read_auto_stop_loss-auto_stop_loss_cells :
    {p : Platform} (laws : ConversionsRoundTrip p) (field limits : AutoStopLossField p)
    → read_auto_stop_loss field (auto_stop_loss_cells limits) ≡ some limits
unfolding read_auto_stop_loss auto_stop_loss_cells
read_auto_stop_loss-auto_stop_loss_cells laws field limits =
    simp (laws.to_int-print_int, laws.to_double-print_double)

-- GetAutoStopLoss, when the check of the connection passes and the server answers its query with
-- the rows of some limits, fewer than 2^31, returns true and appends exactly these, in the
-- server's order, except that without any row it returns false.
pub get_auto_stop_loss_stored :
    {p : Platform} (laws : ConversionsRoundTrip p) (field : AutoStopLossField p)
    (vec stored : List (AutoStopLossField p)) (broker_id investor_id instrument_id : Bytes)
    (s t : Session p) (fields : List (Bytes × ℕ)) (raws : List (List (Option Bytes)))
    (server : p.Server)
    → ensure_connected s ≡ (ok tt, t)
    → p.real_query t.server (
        c_string (
          select_where Tables.auto_stop_loss_table
            (of_investor_instrument broker_id investor_id instrument_id)))
      ≡ (result_set fields raws, server)
    → length raws < 2 ^ 31
    → map (map cell_text) raws ≡ map auto_stop_loss_cells stored
    → get_auto_stop_loss field vec broker_id investor_id instrument_id s ≡ (
      ok (elim raws [ [] ↦ (false, vec) | raw ∷ rest ↦ (true, vec ++ stored) ]),
      record t { server = server },
    )
unfolding get_auto_stop_loss
get_auto_stop_loss_stored laws field vec stored broker_id investor_id instrument_id s t fields raws
      server c q size same =
    query_rows_some_success read_auto_stop_loss field _ s t server fields raws stored vec c q size (
      rw same (
        Reads-map read_auto_stop_loss auto_stop_loss_cells
          (read_auto_stop_loss-auto_stop_loss_cells laws) field stored))
