-- ===== src/Dblayer/TradeCounter/Operations.antt =====
-- The operations on the table of trade counters. The readers into a vector take, besides the arguments of the source,
-- what the uninitialised local `TradeCounterField field` holds.
use vs2017code.Base.{codes, Bool, List}
use vs2017code.Dblayer.Platform.{Platform, M, return, ◌>>=◌}
use vs2017code.Dblayer.Tables.{trade_counter_table}
use vs2017code.Dblayer.Statement.{replace_into, select_all, select_expression}
use vs2017code.Dblayer.Single.{query_rows_some}
use vs2017code.Dblayer.NewId.{upd_with_id}
use vs2017code.Dblayer.TradeCounter.Fields.{TradeCounterField, trade_counter_cells}
use vs2017code.Dblayer.TradeCounter.Reader.{read_trade_counter}

module _ {p : Platform} where
  -- The struct, too, is a result: its number is filled in.
  unfoldable pub upd_trade_counter : TradeCounterField p → M p (Bool × TradeCounterField p)
  unfolding upd_with_id
  upd_trade_counter counter = do
    result ←
        upd_with_id (replace_into trade_counter_table (trade_counter_cells counter))
          (select_expression (codes "MAX(TradeCounterID)") trade_counter_table)
          counter.trade_counter_id
    return (result.0, record counter { trade_counter_id = result.1 })

  unfoldable pub get_trade_counter :
      TradeCounterField p → List (TradeCounterField p) → M p (Bool × List (TradeCounterField p))
  get_trade_counter field vec =
      query_rows_some read_trade_counter field (select_all trade_counter_table) vec
