-- ===== src/Dblayer/AutoStopLoss/Operations.antt =====
-- The operations on the table of stop losses. The readers into a vector take, besides the arguments of the source,
-- what the uninitialised local `AutoStopLossField field` holds.
use vs2017code.Base.{Bytes, codes, Bool, List, [], ◌∷◌}
use vs2017code.Dblayer.Platform.{Platform, M}
use vs2017code.Dblayer.Tables.{auto_stop_loss_table}
use vs2017code.Dblayer.Operation.{run_update}
use vs2017code.Dblayer.Statement.{
  replace_into, select_where, delete_where, equals, ◌and◌, of_investor,
}
use vs2017code.Dblayer.Single.{query_rows_some}
use vs2017code.Dblayer.AutoStopLoss.Fields.{AutoStopLossField, auto_stop_loss_cells}
use vs2017code.Dblayer.AutoStopLoss.Reader.{read_auto_stop_loss}

-- An empty instrument stands for all of them.
unfoldable pub of_investor_instrument : Bytes → Bytes → Bytes → Bytes
of_investor_instrument broker_id investor_id [] = of_investor broker_id investor_id
of_investor_instrument broker_id investor_id (c ∷ instrument_id) =
    of_investor broker_id investor_id and equals (codes "InstrumentID") (c ∷ instrument_id)

module _ {p : Platform} where
  unfoldable pub upd_auto_stop_loss : AutoStopLossField p → M p Bool
  upd_auto_stop_loss limits =
      run_update (replace_into auto_stop_loss_table (auto_stop_loss_cells limits))

  unfoldable pub del_auto_stop_loss : Bytes → Bytes → Bytes → M p Bool
  unfolding of_investor_instrument
  del_auto_stop_loss broker_id investor_id instrument_id = run_update (
      delete_where auto_stop_loss_table
        (of_investor_instrument broker_id investor_id instrument_id))

  unfoldable pub get_auto_stop_loss :
      AutoStopLossField p
      → List (AutoStopLossField p)
      → Bytes
      → Bytes
      → Bytes
      → M p (Bool × List (AutoStopLossField p))
  unfolding of_investor_instrument
  get_auto_stop_loss field vec broker_id investor_id instrument_id =
      query_rows_some read_auto_stop_loss field
        (select_where auto_stop_loss_table
          (of_investor_instrument broker_id investor_id instrument_id))
        vec
