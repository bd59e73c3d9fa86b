-- ===== src/Dblayer/Members.antt =====
-- The members' deposit rights and the ranges of servers in dblayer/src/mysql/DBOperation.cpp.
use vs2017code.Base.{
  zero, suc, Bytes, codes, Bool, false, not, ◌++◌, Option, none, some, get_elem?, bytes_eq, ℤ, pos,
  negsuc,
}
use vs2017code.Dblayer.Platform.{Platform, M, return, at_index, catch_all, ◌>>=◌, ◌>>◌}
use vs2017code.Dblayer.RecordSet.{cell, execute_sql, new_record_set}
use vs2017code.Dblayer.Operation.{ensure_connected}
use vs2017code.Dblayer.Statement.{select_where, equals}
use vs2017code.Dblayer.Single.{query_one}
use vs2017code.Dblayer.Investor.Reader.{read_long_range}
use vs2017code.Dblayer.Tables.{info_table, member_table, investor_server_port_conf_table}

-- "SELECT column FROM `table` WHERE key = 'value';"
select_column : Bytes → Bytes → Bytes → Bytes → Bytes
select_column column table key value =
    codes "SELECT "
    ++ (column
        ++ (codes " FROM `" ++ (table ++ (codes "` WHERE " ++ (equals key value ++ codes ";")))))

module _ {p : Platform} where
  -- A query for one text, and `none` without a row and on a failure.
  unfoldable pub first_text : Bytes → M p (Option Bytes)
  unfolding execute_sql cell
  first_text sql = do
    ensure_connected
    answer ← execute_sql new_record_set sql
    elim answer.0 [
      | negsuc n ↦ return none
      | pos count ↦ elim count [
        | zero ↦ return none
        | suc more ↦ do
          row ← at_index (get_elem? answer.1.rows 0)
          text ← at_index (cell row 0)
          return (some text)
      ]
    ]

  unfoldable pub is_has_deposit_auth : Bytes → M p Bool
  unfolding first_text select_column
  is_has_deposit_auth investor_id = catch_all false (do
    match_id ←
        first_text (select_column (codes "matchid") member_table (codes "InvestorID") investor_id)
    elim match_id [
      | none ↦ return false
      | some id ↦ do
        is_cash ← first_text (select_column (codes "iscash") info_table (codes "ID") id)
        elim is_cash [ none ↦ return false | some text ↦ return (not (bytes_eq text (codes "0"))) ]
    ])

  unfoldable pub get_server_investor_range : ℤ × ℤ → Bytes → M p (Bool × (ℤ × ℤ))
  get_server_investor_range range server_id =
      query_one (read_long_range p) range
        (select_where investor_server_port_conf_table (equals (codes "id") server_id))
