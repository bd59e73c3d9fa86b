-- ===== src/Dblayer/CashFlow/Operations.antt =====
-- The operations on the cash flow tables. The readers take, besides the arguments of the source, what
-- the uninitialised local `CashFlowField field` holds.
use vs2017code.Base.{Bytes, codes, Bool, List}
use vs2017code.Dblayer.Platform.{Platform, M}
use vs2017code.Dblayer.Tables.{cash_flow_table, his_cash_flow_table}
use vs2017code.Dblayer.Operation.{run_update}
use vs2017code.Dblayer.Statement.{
  replace_into, select_where, select_all, delete_where, equals, of_investor, query_rows,
}
use vs2017code.Dblayer.CashFlow.Fields.{CashFlowField, cash_flow_cells}
use vs2017code.Dblayer.CashFlow.Reader.{read_cash_flow}

module _ {p : Platform} where
  unfoldable pub upd_cash_flow : CashFlowField p → M p Bool
  upd_cash_flow cash_flow = run_update (replace_into cash_flow_table (cash_flow_cells cash_flow))

  unfoldable pub get_un_handle_cash_flow :
      CashFlowField p → List (CashFlowField p) → M p (Bool × List (CashFlowField p))
  get_un_handle_cash_flow field cash_flows =
      query_rows read_cash_flow field
        (select_where cash_flow_table (equals (codes "IsHandled") (codes "0"))) cash_flows

  unfoldable pub get_cash_flow :
      CashFlowField p → List (CashFlowField p) → Bytes → Bytes → M p (Bool × List (CashFlowField p))
  get_cash_flow field cash_flows broker_id investor_id =
      query_rows read_cash_flow field
        (select_where cash_flow_table (of_investor broker_id investor_id)) cash_flows

  unfoldable pub del_investor_cash_flow : Bytes → Bytes → M p Bool
  del_investor_cash_flow broker_id investor_id =
      run_update (delete_where cash_flow_table (of_investor broker_id investor_id))

  unfoldable pub upd_his_cash_flow : CashFlowField p → M p Bool
  upd_his_cash_flow cash_flow =
      run_update (replace_into his_cash_flow_table (cash_flow_cells cash_flow))

  unfoldable pub get_un_handle_his_cash_flow :
      CashFlowField p → List (CashFlowField p) → M p (Bool × List (CashFlowField p))
  get_un_handle_his_cash_flow field cash_flows =
      query_rows read_cash_flow field
        (select_where his_cash_flow_table (equals (codes "IsHandled") (codes "0"))) cash_flows

  unfoldable pub get_his_cash_flow :
      CashFlowField p → List (CashFlowField p) → Bytes → Bytes → M p (Bool × List (CashFlowField p))
  get_his_cash_flow field cash_flows broker_id investor_id =
      query_rows read_cash_flow field
        (select_where his_cash_flow_table (of_investor broker_id investor_id)) cash_flows

  unfoldable pub del_investor_his_cash_flow : Bytes → Bytes → M p Bool
  del_investor_his_cash_flow broker_id investor_id =
      run_update (delete_where his_cash_flow_table (of_investor broker_id investor_id))

  unfoldable pub get_all_cash_flow :
      CashFlowField p → List (CashFlowField p) → M p (Bool × List (CashFlowField p))
  get_all_cash_flow field cash_flows =
      query_rows read_cash_flow field (select_all cash_flow_table) cash_flows

  unfoldable pub del_cash_flow : CashFlowField p → M p Bool
  del_cash_flow cash_flow = run_update (
      delete_where cash_flow_table
        (equals (codes "CashFlowID") (p.print_int cash_flow.cash_flow_id)))
