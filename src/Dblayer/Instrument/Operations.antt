-- ===== src/Dblayer/Instrument/Operations.antt =====
-- The operations on the table of instruments. The readers into a vector take, besides the arguments of the source,
-- what the uninitialised local `InstrumentInfoField field` holds.
use vs2017code.Base.{Bytes, codes, Bool, List, []}
use vs2017code.Dblayer.Platform.{Platform, M}
use vs2017code.Dblayer.Tables.{instrument_table}
use vs2017code.Dblayer.Operation.{run_update}
use vs2017code.Dblayer.Statement.{replace_into, select_where, select_all, delete_where, equals}
use vs2017code.Dblayer.Single.{query_one, query_rows_some}
use vs2017code.Dblayer.Instrument.Fields.{InstrumentInfoField, instrument_info_cells}
use vs2017code.Dblayer.Instrument.Reader.{read_instrument_info}

module _ {p : Platform} where
  unfoldable pub upd_instrument_info : InstrumentInfoField p → M p Bool
  upd_instrument_info instrument =
      run_update (replace_into instrument_table (instrument_info_cells instrument))

  unfoldable pub get_instrument_info :
      InstrumentInfoField p → Bytes → M p (Bool × InstrumentInfoField p)
  get_instrument_info field instrument_id =
      query_one read_instrument_info field
        (select_where instrument_table (equals (codes "InstrumentID") instrument_id))

  -- The vector is cleared first.
  unfoldable pub get_all_instrument_info :
      InstrumentInfoField p
      → List (InstrumentInfoField p)
      → M p (Bool × List (InstrumentInfoField p))
  get_all_instrument_info field vec =
      query_rows_some read_instrument_info field (select_all instrument_table) []

  unfoldable pub del_instrument_info : Bytes → M p Bool
  del_instrument_info instrument_id =
      run_update (delete_where instrument_table (equals (codes "InstrumentID") instrument_id))
