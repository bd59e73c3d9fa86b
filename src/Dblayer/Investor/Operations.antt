-- ===== src/Dblayer/Investor/Operations.antt =====
-- The operations on the table of investors. The readers into a vector take, besides the arguments of the source,
-- what the uninitialised local `InvestorInfoField field` holds.
use vs2017code.Base.{
  zero, suc, pos, negsuc, take, get_elem?, Bytes, codes, Bool, true, false, List, ◌++◌,
}
use vs2017code.Dblayer.Platform.{Platform, M, return, at_index, catch_all, ◌>>=◌, ◌>>◌}
use vs2017code.Dblayer.RecordSet.{execute_sql, new_record_set}
use vs2017code.Dblayer.Tables.{investor_table, investor_server_port_conf_table}
use vs2017code.Dblayer.Operation.{run_update, ensure_connected}
use vs2017code.Dblayer.Statement.{
  replace_into, select_where, select_all, delete_where, equals, of_investor, read_rows,
}
use vs2017code.Dblayer.Single.{query_one, query_rows_some}
use vs2017code.Dblayer.Investor.Fields.{InvestorInfoField, investor_info_cells}
use vs2017code.Dblayer.Investor.Reader.{read_investor_info, read_investor_of_server, read_range}

unfoldable pub between_ids : Bytes → Bytes → Bytes
between_ids from to = codes "id BETWEEN '" ++ (from ++ (codes "' AND '" ++ (to ++ codes "'")))

module _ {p : Platform} where
  unfoldable pub get_investor_info :
      InvestorInfoField p → Bytes → Bytes → M p (Bool × InvestorInfoField p)
  get_investor_info field broker_id investor_id =
      query_one read_investor_info field
        (select_where investor_table (of_investor broker_id investor_id))

  -- The struct is read back, which may fail unnoticed.
  unfoldable pub upd_investor_info : InvestorInfoField p → M p (Bool × InvestorInfoField p)
  unfolding get_investor_info
  upd_investor_info investor = do
    written ← run_update (replace_into investor_table (investor_info_cells investor))
    elim written [
      | false ↦ return (false, investor)
      | true ↦ do
        again ← get_investor_info investor investor.broker_id investor.investor_id
        return (true, again.1)
    ]

  unfoldable pub get_investor_info_of_id :
      InvestorInfoField p → p.Int → M p (Bool × InvestorInfoField p)
  get_investor_info_of_id field id =
      query_one read_investor_info field
        (select_where investor_table (equals (codes "ID") (p.print_int id)))

  unfoldable pub get_all_investor_info :
      InvestorInfoField p → List (InvestorInfoField p) → M p (Bool × List (InvestorInfoField p))
  get_all_investor_info field vec =
      query_rows_some read_investor_info field (select_all investor_table) vec

  -- The second query and its loop.
  unfoldable pub query_investors_of_range :
      InvestorInfoField p
      → List (InvestorInfoField p)
      → Bytes × Bytes
      → M p (Bool × List (InvestorInfoField p))
  unfolding execute_sql between_ids
  query_investors_of_range field vec range = do
    ensure_connected
    answer ← execute_sql new_record_set (select_where investor_table (between_ids range.0 range.1))
    elim answer.0 [
      | negsuc n ↦ return (false, vec)
      | pos count ↦ elim count [
        | zero ↦ return (false, vec)
        | suc more ↦ do
          first ← at_index (get_elem? answer.1.rows 0)
          read_rows (read_investor_of_server first) field (take (suc more) answer.1.rows) vec
      ]
    ]

  unfoldable pub get_investor_info_of_server :
      InvestorInfoField p
      → List (InvestorInfoField p)
      → Bytes
      → M p (Bool × List (InvestorInfoField p))
  unfolding execute_sql read_range query_investors_of_range
  get_investor_info_of_server field vec server_id =
      catch_all (false, vec)
        (do
          ensure_connected
          answer ←
              execute_sql new_record_set
                (select_where investor_server_port_conf_table (equals (codes "id") server_id))
          elim answer.0 [
            | negsuc n ↦ return (false, vec)
            | pos count ↦ elim count [
              | zero ↦ return (false, vec)
              | suc more ↦ do
                row ← at_index (get_elem? answer.1.rows 0)
                range ← at_index (read_range row)
                query_investors_of_range field vec range
            ]
          ])

  unfoldable pub del_investor_info : Bytes → Bytes → M p Bool
  del_investor_info broker_id investor_id =
      run_update (delete_where investor_table (of_investor broker_id investor_id))
