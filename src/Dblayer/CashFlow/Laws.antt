-- ===== src/Dblayer/CashFlow/Laws.antt =====
-- What is written to the cash flow tables is what is read from them.
use vs2017code.Base.{
  ℕ, ◌^◌, ◌<◌, ◌≡◌, Bytes, codes, true, List, [], ◌∷◌, ◌++◌, map, Option, some, length, c_string,
}
use vs2017code.Dblayer.Platform.{Platform, ConversionsRoundTrip, result_set, Session, ok}
use vs2017code.Dblayer.Tables.{cash_flow_table}
use vs2017code.Dblayer.RecordSet.{cell_text}
use vs2017code.Dblayer.Operation.{ensure_connected}
use vs2017code.Dblayer.Statement.{select_where, equals}
use vs2017code.Dblayer.Statement.Rows.{Reads, query_rows_success}
use vs2017code.Dblayer.CashFlow.Fields.{CashFlowField, cash_flow_cells}
use vs2017code.Dblayer.CashFlow.Reader.{read_cash_flow}
use vs2017code.Dblayer.CashFlow.Operations.{get_un_handle_cash_flow}

-- Each of the 13 columns that are written is read into the field that it was written from.
pub read_cash_flow-cash_flow_cells :
    {p : Platform} (laws : ConversionsRoundTrip p) (field cash_flow : CashFlowField p)
    → read_cash_flow field (cash_flow_cells cash_flow) ≡ some cash_flow
unfolding read_cash_flow cash_flow_cells
read_cash_flow-cash_flow_cells laws field cash_flow =
    simp (laws.to_int-print_int, laws.to_double-print_double)

stored_Reads :
    {p : Platform} (laws : ConversionsRoundTrip p) (field : CashFlowField p)
    (cash_flows : List (CashFlowField p))
    → Reads read_cash_flow field (map cash_flow_cells cash_flows) cash_flows
stored_Reads laws field [] = tt
stored_Reads laws field (x ∷ cash_flows) =
    (read_cash_flow-cash_flow_cells laws field x, stored_Reads laws x cash_flows)

-- GetUnHandleCashFlow, when the check of the connection passes and the server answers its query with
-- the rows of some cash flows, fewer than 2^31, returns true and appends exactly these cash flows, in
-- the server's order.
pub get_un_handle_cash_flow_stored :
    {p : Platform} (laws : ConversionsRoundTrip p) (field : CashFlowField p)
    (vec cash_flows : List (CashFlowField p)) (s t : Session p) (fields : List (Bytes × ℕ))
    (raws : List (List (Option Bytes))) (server : p.Server)
    → ensure_connected s ≡ (ok tt, t)
    → p.real_query t.server
        (c_string (select_where cash_flow_table (equals (codes "IsHandled") (codes "0"))))
      ≡ (result_set fields raws, server)
    → length raws < 2 ^ 31
    → map (map cell_text) raws ≡ map cash_flow_cells cash_flows
    → get_un_handle_cash_flow field vec s
      ≡ (ok (true, vec ++ cash_flows), record t { server = server })
unfolding get_un_handle_cash_flow
get_un_handle_cash_flow_stored laws field vec cash_flows s t fields raws server c q size stored =
    query_rows_success read_cash_flow field _ vec s t fields raws cash_flows server c q size
      (rw stored (stored_Reads laws field cash_flows))
