-- ===== src/Dblayer/Database/Queries.antt =====
-- CDataBase of dblayer/src/mysql/MysqlDataBase.cpp: the statements on databases, and the query of a
-- single value.
use vs2017code.Base.{
  Bytes, codes, List, [], ◌∷◌, ◌++◌, Option, none, some, c_string, if◌then◌else◌, ℤ, bytes_eq,
}
use vs2017code.Dblayer.Platform.{
  Platform, failed, affected, result_set, M, return, undefined, ◌>>=◌,
}
use vs2017code.Dblayer.Database.{query, zero_on_success}

-- What a returned pointer stands for: the literal "-1", or memory that is freed.
pub data Text : Type 0 where
  literal : Bytes → Text
  dangling : Text

-- `((row[0]==NULL)||(!strlen(row[0])))?"-1":row[0]`, when the result has been freed.
unfoldable pub freed_cell : Option Bytes → Text
freed_cell none = literal (codes "-1")
freed_cell (some bytes) = if bytes_eq (c_string bytes) [] then literal (codes "-1") else dangling

module _ {p : Platform} where
  -- A result without a row, or no result, is read through a null pointer.
  unfoldable pub first_cell : List (List (Option Bytes)) → M p Text
  unfolding freed_cell
  first_cell [] = undefined
  first_cell ([] ∷ rows) = undefined
  first_cell ((value ∷ row) ∷ rows) = return (freed_cell value)

  -- After a failure the pointer is into a local string.
  unfoldable pub exec_query_get_sing_value : Bytes → M p Text
  unfolding first_cell
  exec_query_get_sing_value sql = do
    reply ← query sql
    elim reply [
      | failed ↦ return dangling
      | affected n ↦ undefined
      | result_set fields rows ↦ first_cell rows
    ]

  get_sys_time : M p Text
  unfolding exec_query_get_sing_value
  get_sys_time = exec_query_get_sing_value (codes "select now()")

  create_db : Bytes → M p ℤ
  create_db name = do
    reply ← query (codes "CREATE CDataBase " ++ name)
    return (zero_on_success reply)

  drop_db : Bytes → M p ℤ
  drop_db name = do reply ← query (codes "DROP CDataBase " ++ name); return (zero_on_success reply)
