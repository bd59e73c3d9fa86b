-- ===== src/Dblayer/LastTick/Laws.antt =====
-- What is written to the table of last ticks is what is read from it.
use vs2017code.Base.{
  ℕ, ◌^◌, ◌<◌, ◌≡◌, Bytes, codes, List, ◌∷◌, map, Option, some, length, c_string, pos,
}
use vs2017code.Dblayer.Platform.{Platform, ConversionsRoundTrip, result_set, Session, ok}
use vs2017code.Dblayer.Tables
use vs2017code.Dblayer.RecordSet.{cell_text}
use vs2017code.Dblayer.Operation.{ensure_connected}
use vs2017code.Dblayer.Statement.{select_where, equals, ◌and◌}
use vs2017code.Dblayer.Single.{query_row_found}
use vs2017code.Dblayer.LastTick.Operations.{get_last_tick}
use vs2017code.Dblayer.LastTick.Fields.{DepthMarketDataField, last_tick_cells}
use vs2017code.Dblayer.LastTick.Reader.{read_last_tick}

-- Each of the 12 columns that are written is read into the field that it was written from.
pub read_last_tick-last_tick_cells :
    {p : Platform} (laws : ConversionsRoundTrip p) (field tick : DepthMarketDataField p)
    → read_last_tick field (last_tick_cells tick) ≡ some tick
unfolding read_last_tick last_tick_cells
read_last_tick-last_tick_cells laws field tick =
    simp (laws.to_int-print_int, laws.to_double-print_double)

-- GetLastTick, when the check of the connection passes and the server answers its query with rows
-- of which the first is that of a tick, returns 1 and fills in exactly this tick.
pub get_last_tick_stored :
    {p : Platform} (laws : ConversionsRoundTrip p) (field stored : DepthMarketDataField p)
    (trading_day exchange_id instrument_id : Bytes) (s t : Session p) (fields : List (Bytes × ℕ))
    (raw : List (Option Bytes)) (raws : List (List (Option Bytes))) (server : p.Server)
    → ensure_connected s ≡ (ok tt, t)
    → p.real_query t.server (
        c_string (
          select_where Tables.last_tick_table (
            equals (codes "TradingDay") trading_day
            and equals (codes "ExchangeID") exchange_id
            and equals (codes "InstrumentID") instrument_id)))
      ≡ (result_set fields (raw ∷ raws), server)
    → length (raw ∷ raws) < 2 ^ 31
    → map cell_text raw ≡ last_tick_cells stored
    → get_last_tick field trading_day exchange_id instrument_id s
      ≡ (ok (pos 1, stored), record t { server = server })
unfolding get_last_tick
get_last_tick_stored laws field stored trading_day exchange_id instrument_id s t fields raw raws
      server c q size same =
    query_row_found read_last_tick field _ s t server _ fields raw raws stored c q size
      (rw same (read_last_tick-last_tick_cells laws field stored))
