-- ===== src/Dblayer/Order/Operations.antt =====
-- The operations on the order tables. The readers take, besides the arguments of the source, what the
-- uninitialised local `OrderField field` holds.
use vs2017code.Base.{Bytes, codes, Bool, List, [], ◌∷◌, ◌++◌, ℤ}
use vs2017code.Dblayer.Platform.{Platform, M}
use vs2017code.Dblayer.Tables.{order_table, his_order_table}
use vs2017code.Dblayer.Operation.{run_update}
use vs2017code.Dblayer.Statement.{
  replace_into, select_where, select_all, select_expression, delete_where, truncate_table, equals,
  ◌and◌, of_investor, query_rows, query_max, query_investors,
}
use vs2017code.Dblayer.Order.Fields.{OrderField, order_cells}
use vs2017code.Dblayer.Order.Reader.{read_order}

module _ {p : Platform} where
  unfoldable pub upd_order : OrderField p → M p Bool
  upd_order order = run_update (replace_into order_table (order_cells order))

  unfoldable pub clean_order : M p Bool
  clean_order = run_update (truncate_table order_table)

  unfoldable pub get_order :
      OrderField p → List (OrderField p) → Bytes → Bytes → Bytes → M p (Bool × List (OrderField p))
  get_order field orders broker_id investor_id trading_day =
      query_rows read_order field
        (select_where order_table
          (of_investor broker_id investor_id and equals (codes "TradingDay") trading_day))
        orders

  unfoldable pub get_all_order_of_day :
      OrderField p → List (OrderField p) → Bytes → M p (Bool × List (OrderField p))
  get_all_order_of_day field orders trading_day =
      query_rows read_order field
        (select_where order_table (equals (codes "TradingDay") trading_day)) orders

  unfoldable pub get_all_order_of_instrument :
      OrderField p → List (OrderField p) → Bytes → Bytes → M p (Bool × List (OrderField p))
  get_all_order_of_instrument field orders trading_day instrument_id =
      query_rows read_order field
        (select_where order_table
          (equals (codes "TradingDay") trading_day and equals (codes "InstrumentID") instrument_id))
        orders

  unfoldable pub get_all_order :
      OrderField p → List (OrderField p) → M p (Bool × List (OrderField p))
  get_all_order field orders = query_rows read_order field (select_all order_table) orders

  unfoldable pub get_max_order_sys_id : M p ℤ
  get_max_order_sys_id = query_max (select_expression (codes "MAX(ordersysid)") order_table)

  unfoldable pub get_investors_of_order : List Bytes → M p (Bool × List Bytes)
  get_investors_of_order =
      query_investors (select_expression (codes "DISTINCT investorid") order_table)

  unfoldable pub del_investor_order : Bytes → Bytes → M p Bool
  del_investor_order broker_id investor_id =
      run_update (delete_where order_table (of_investor broker_id investor_id))

  -- The history tables have one more column, which is written as 0.
  unfoldable pub upd_his_order : OrderField p → M p Bool
  upd_his_order order =
      run_update (replace_into his_order_table (order_cells order ++ codes "0" ∷ []))

  unfoldable pub get_his_order :
      OrderField p → List (OrderField p) → Bytes → Bytes → Bytes → M p (Bool × List (OrderField p))
  get_his_order field orders broker_id investor_id trading_day =
      query_rows read_order field
        (select_where his_order_table
          (of_investor broker_id investor_id and equals (codes "TradingDay") trading_day))
        orders

  unfoldable pub get_all_his_order :
      OrderField p → List (OrderField p) → Bytes → M p (Bool × List (OrderField p))
  get_all_his_order field orders trading_day =
      query_rows read_order field
        (select_where his_order_table (equals (codes "TradingDay") trading_day)) orders

  unfoldable pub del_investor_his_order : Bytes → Bytes → M p Bool
  del_investor_his_order broker_id investor_id =
      run_update (delete_where his_order_table (of_investor broker_id investor_id))
