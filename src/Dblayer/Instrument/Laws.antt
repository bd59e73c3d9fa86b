-- ===== src/Dblayer/Instrument/Laws.antt =====
-- What is written to the table of instruments is what is read from it.
use vs2017code.Base.{
  ℕ, ◌^◌, ◌<◌, ◌≡◌, Bytes, codes, true, List, ◌∷◌, map, Option, some, length, c_string,
}
use vs2017code.Dblayer.Platform.{Platform, ConversionsRoundTrip, result_set, Session, ok}
use vs2017code.Dblayer.Tables
use vs2017code.Dblayer.RecordSet.{cell_text}
use vs2017code.Dblayer.Operation.{ensure_connected}
use vs2017code.Dblayer.Statement.{select_where, equals}
use vs2017code.Dblayer.Single.{query_one_found}
use vs2017code.Dblayer.Instrument.Operations.{get_instrument_info}
use vs2017code.Dblayer.Instrument.Fields.{InstrumentInfoField, instrument_info_cells}
use vs2017code.Dblayer.Instrument.Reader.{read_instrument_info}

-- Each of the 31 columns that are written is read into the field that it was written from.
pub read_instrument_info-instrument_info_cells :
    {p : Platform} (laws : ConversionsRoundTrip p) (field instrument : InstrumentInfoField p)
    → read_instrument_info field (instrument_info_cells instrument) ≡ some instrument
unfolding read_instrument_info instrument_info_cells
read_instrument_info-instrument_info_cells laws field instrument =
    simp (laws.to_int-print_int, laws.to_double-print_double)

-- GetInstrumentInfo, when the check of the connection passes and the server answers its query with
-- rows of which the first is that of a stored instrument, returns true and fills in exactly this.
pub get_instrument_info_stored :
    {p : Platform} (laws : ConversionsRoundTrip p) (field stored : InstrumentInfoField p)
    (instrument_id : Bytes) (s t : Session p) (fields : List (Bytes × ℕ))
    (raw : List (Option Bytes)) (raws : List (List (Option Bytes))) (server : p.Server)
    → ensure_connected s ≡ (ok tt, t)
    → p.real_query t.server (
        c_string
          (select_where Tables.instrument_table (equals (codes "InstrumentID") instrument_id)))
      ≡ (result_set fields (raw ∷ raws), server)
    → length (raw ∷ raws) < 2 ^ 31
    → map cell_text raw ≡ instrument_info_cells stored
    → get_instrument_info field instrument_id s ≡ (ok (true, stored), record t { server = server })
unfolding get_instrument_info
get_instrument_info_stored laws field stored instrument_id s t fields raw raws server c q size
      same =
    query_one_found read_instrument_info field _ s t server fields raw raws stored c q size
      (rw same (read_instrument_info-instrument_info_cells laws field stored))
