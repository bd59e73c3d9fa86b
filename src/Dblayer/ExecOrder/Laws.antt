-- ===== src/Dblayer/ExecOrder/Laws.antt =====
-- What is written to the tables of exercise orders is what is read from it.
use vs2017code.Base.{
  ℕ, ◌^◌, ◌<◌, ◌≡◌, Bytes, codes, true, List, ◌++◌, map, Option, some, length, c_string,
}
use vs2017code.Dblayer.Platform.{Platform, ConversionsRoundTrip, result_set, Session, ok}
use vs2017code.Dblayer.Tables
use vs2017code.Dblayer.RecordSet.{cell_text}
use vs2017code.Dblayer.Operation.{ensure_connected}
use vs2017code.Dblayer.Statement.{select_where, equals, ◌and◌, of_investor}
use vs2017code.Dblayer.Statement.Rows.{Reads-map, query_rows_success}
use vs2017code.Dblayer.ExecOrder.Operations.{get_exec_order}
use vs2017code.Dblayer.ExecOrder.Fields.{ExecOrderField, exec_order_cells}
use vs2017code.Dblayer.ExecOrder.Reader.{read_exec_order}

-- Each of the 44 columns that are written is read into the field that it was written from.
pub read_exec_order-exec_order_cells :
    {p : Platform} (laws : ConversionsRoundTrip p) (field exec_order : ExecOrderField p)
    → read_exec_order field (exec_order_cells exec_order) ≡ some exec_order
unfolding read_exec_order exec_order_cells
read_exec_order-exec_order_cells laws field exec_order = simp (laws.to_int-print_int)

-- GetExecOrder, when the check of the connection passes and the server answers its query with the
-- rows of some exercise orders, fewer than 2^31, returns true and appends exactly these orders, in
-- the server's order.
pub get_exec_order_stored :
    {p : Platform} (laws : ConversionsRoundTrip p) (field : ExecOrderField p)
    (vec stored : List (ExecOrderField p)) (broker_id investor_id trading_day : Bytes)
    (s t : Session p) (fields : List (Bytes × ℕ)) (raws : List (List (Option Bytes)))
    (server : p.Server)
    → ensure_connected s ≡ (ok tt, t)
    → p.real_query t.server (
        c_string (
          select_where Tables.exec_order_table
            (of_investor broker_id investor_id and equals (codes "TradingDay") trading_day)))
      ≡ (result_set fields raws, server)
    → length raws < 2 ^ 31
    → map (map cell_text) raws ≡ map exec_order_cells stored
    → get_exec_order field vec broker_id investor_id trading_day s
      ≡ (ok (true, vec ++ stored), record t { server = server })
unfolding get_exec_order
get_exec_order_stored laws field vec stored broker_id investor_id trading_day s t fields raws server
      c q size same =
    query_rows_success read_exec_order field _ vec s t fields raws stored server c q size (
      rw same (
        Reads-map read_exec_order exec_order_cells (read_exec_order-exec_order_cells laws) field
          stored))
