-- ===== src/Dblayer/ExecOrder/Operations.antt =====
-- The operations on the tables of exercise orders. The readers into a vector take, besides the arguments of the source,
-- what the uninitialised local `ExecOrderField field` holds.
use vs2017code.Base.{Bytes, codes, Bool, List}
use vs2017code.Dblayer.Platform.{Platform, M}
use vs2017code.Dblayer.Tables.{exec_order_table, his_exec_order_table}
use vs2017code.Dblayer.Operation.{run_update}
use vs2017code.Dblayer.Statement.{
  replace_into, select_where, select_all, truncate_table, equals, ◌and◌, of_investor, query_rows,
}
use vs2017code.Dblayer.ExecOrder.Fields.{ExecOrderField, exec_order_cells}
use vs2017code.Dblayer.ExecOrder.Reader.{read_exec_order}

module _ {p : Platform} where
  unfoldable pub upd_exec_order : ExecOrderField p → M p Bool
  upd_exec_order exec_order =
      run_update (replace_into exec_order_table (exec_order_cells exec_order))

  unfoldable pub clean_exec_order : M p Bool
  clean_exec_order = run_update (truncate_table exec_order_table)

  unfoldable pub get_exec_order :
      ExecOrderField p
      → List (ExecOrderField p)
      → Bytes
      → Bytes
      → Bytes
      → M p (Bool × List (ExecOrderField p))
  get_exec_order field vec broker_id investor_id trading_day =
      query_rows read_exec_order field
        (select_where exec_order_table
          (of_investor broker_id investor_id and equals (codes "TradingDay") trading_day))
        vec

  unfoldable pub get_all_exec_order_of_day :
      ExecOrderField p → List (ExecOrderField p) → Bytes → M p (Bool × List (ExecOrderField p))
  get_all_exec_order_of_day field vec trading_day =
      query_rows read_exec_order field
        (select_where exec_order_table (equals (codes "TradingDay") trading_day)) vec

  unfoldable pub get_all_exec_order :
      ExecOrderField p → List (ExecOrderField p) → M p (Bool × List (ExecOrderField p))
  get_all_exec_order field vec = query_rows read_exec_order field (select_all exec_order_table) vec

  unfoldable pub upd_his_exec_order : ExecOrderField p → M p Bool
  upd_his_exec_order exec_order =
      run_update (replace_into his_exec_order_table (exec_order_cells exec_order))

  unfoldable pub get_his_exec_order :
      ExecOrderField p
      → List (ExecOrderField p)
      → Bytes
      → Bytes
      → Bytes
      → M p (Bool × List (ExecOrderField p))
  get_his_exec_order field vec broker_id investor_id trading_day =
      query_rows read_exec_order field
        (select_where his_exec_order_table
          (of_investor broker_id investor_id and equals (codes "TradingDay") trading_day))
        vec

  unfoldable pub get_all_his_exec_order :
      ExecOrderField p → List (ExecOrderField p) → Bytes → M p (Bool × List (ExecOrderField p))
  get_all_his_exec_order field vec trading_day =
      query_rows read_exec_order field
        (select_where his_exec_order_table (equals (codes "TradingDay") trading_day)) vec
