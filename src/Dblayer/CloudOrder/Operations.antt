-- ===== src/Dblayer/CloudOrder/Operations.antt =====
-- The operations on the tables of cloud orders. The readers into a vector take, besides the arguments of the source,
-- what the uninitialised local `CloudOrderField field` holds.
use vs2017code.Base.{Bytes, codes, Bool, List}
use vs2017code.Dblayer.Platform.{Platform, M, return, ◌>>=◌}
use vs2017code.Dblayer.Tables.{cloud_order_table, his_cloud_order_table}
use vs2017code.Dblayer.Operation.{run_update}
use vs2017code.Dblayer.Statement.{
  replace_into, select_where, select_all, select_expression, delete_where, equals, ◌and◌,
  of_investor,
}
use vs2017code.Dblayer.Single.{query_rows_some}
use vs2017code.Dblayer.NewId.{upd_with_id}
use vs2017code.Dblayer.CloudOrder.Fields.{CloudOrderField, cloud_order_cells}
use vs2017code.Dblayer.CloudOrder.Reader.{read_cloud_order}

module _ {p : Platform} where
  -- The struct, too, is a result: its number is filled in.
  unfoldable pub upd_cloud_order : CloudOrderField p → M p (Bool × CloudOrderField p)
  unfolding upd_with_id
  upd_cloud_order cloud_order = do
    result ←
        upd_with_id (replace_into cloud_order_table (cloud_order_cells cloud_order))
          (select_expression (codes "MAX(CloudOrderID)") cloud_order_table)
          cloud_order.cloud_order_id
    return (result.0, record cloud_order { cloud_order_id = result.1 })

  unfoldable pub get_cloud_order :
      CloudOrderField p
      → List (CloudOrderField p)
      → Bytes
      → Bytes
      → M p (Bool × List (CloudOrderField p))
  get_cloud_order field vec broker_id investor_id =
      query_rows_some read_cloud_order field
        (select_where cloud_order_table (of_investor broker_id investor_id)) vec

  unfoldable pub get_all_cloud_order :
      CloudOrderField p → List (CloudOrderField p) → M p (Bool × List (CloudOrderField p))
  get_all_cloud_order field vec =
      query_rows_some read_cloud_order field (select_all cloud_order_table) vec

  unfoldable pub get_invalid_cloud_order :
      CloudOrderField p → List (CloudOrderField p) → M p (Bool × List (CloudOrderField p))
  get_invalid_cloud_order field vec =
      query_rows_some read_cloud_order field
        (select_where cloud_order_table (codes "status <> '0'")) vec

  unfoldable pub del_cloud_order : Bytes → Bytes → M p Bool
  del_cloud_order instrument_id status = run_update (
      delete_where cloud_order_table
        (equals (codes "InstrumentID") instrument_id and equals (codes "status") status))

  unfoldable pub del_investor_cloud_order : Bytes → Bytes → M p Bool
  del_investor_cloud_order broker_id investor_id =
      run_update (delete_where cloud_order_table (of_investor broker_id investor_id))

  unfoldable pub del_all_invalid_cloud_order : M p Bool
  del_all_invalid_cloud_order = run_update (delete_where cloud_order_table (codes "status <> '0'"))

  unfoldable pub upd_his_cloud_order : CloudOrderField p → M p (Bool × CloudOrderField p)
  unfolding upd_with_id
  upd_his_cloud_order cloud_order = do
    result ←
        upd_with_id (replace_into his_cloud_order_table (cloud_order_cells cloud_order))
          (select_expression (codes "MAX(CloudOrderID)") his_cloud_order_table)
          cloud_order.cloud_order_id
    return (result.0, record cloud_order { cloud_order_id = result.1 })

  unfoldable pub get_his_cloud_order :
      CloudOrderField p
      → List (CloudOrderField p)
      → Bytes
      → Bytes
      → M p (Bool × List (CloudOrderField p))
  get_his_cloud_order field vec broker_id investor_id =
      query_rows_some read_cloud_order field
        (select_where his_cloud_order_table (of_investor broker_id investor_id)) vec
