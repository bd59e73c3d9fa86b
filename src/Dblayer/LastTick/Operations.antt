-- ===== src/Dblayer/LastTick/Operations.antt =====
-- The operations on the table of last ticks. The readers into a vector take, besides the arguments of the source,
-- what the uninitialised local `DepthMarketDataField tick` holds.
use vs2017code.Base.{Bytes, codes, Bool, List, ℤ}
use vs2017code.Dblayer.Platform.{Platform, M}
use vs2017code.Dblayer.Database.{minus_one}
use vs2017code.Dblayer.Tables.{last_tick_table}
use vs2017code.Dblayer.Operation.{run_update}
use vs2017code.Dblayer.Statement.{replace_into, select_where, equals, ◌and◌}
use vs2017code.Dblayer.Single.{query_rows_code, query_row}
use vs2017code.Dblayer.LastTick.Fields.{DepthMarketDataField, last_tick_cells}
use vs2017code.Dblayer.LastTick.Reader.{read_last_tick}

module _ {p : Platform} where
  unfoldable pub upd_last_tick : DepthMarketDataField p → M p Bool
  upd_last_tick tick = run_update (replace_into last_tick_table (last_tick_cells tick))

  unfoldable pub get_last_tick :
      DepthMarketDataField p → Bytes → Bytes → Bytes → M p (ℤ × DepthMarketDataField p)
  get_last_tick tick trading_day exchange_id instrument_id =
      query_row read_last_tick tick minus_one (
        select_where last_tick_table (
          equals (codes "TradingDay") trading_day
          and equals (codes "ExchangeID") exchange_id
          and equals (codes "InstrumentID") instrument_id))

  unfoldable pub get_last_ticks :
      DepthMarketDataField p
      → List (DepthMarketDataField p)
      → Bytes
      → M p (ℤ × List (DepthMarketDataField p))
  get_last_ticks field vec trading_day =
      query_rows_code read_last_tick field
        (select_where last_tick_table (equals (codes "TradingDay") trading_day)) vec
