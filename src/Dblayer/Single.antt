-- ===== src/Dblayer/Single.antt =====
-- The bodies of the readers of DBOperation.cpp that return early when the query has no rows.
use vs2017code.Base.{
  ℕ, zero, suc, ◌^◌, ◌<◌, ◌≡◌, arith, Bytes, Bool, true, false, List, [], ◌∷◌, ◌++◌, map, Option,
  some, length, take, get_elem?, ℤ, pos, negsuc, c_string,
}
use vs2017code.Dblayer.Platform.{
  Platform, failed, result_set, Session, ok, M, return, at_index, catch_all, ◌>>=◌, ◌>>◌,
}
use vs2017code.Dblayer.Database.{minus_one}
use vs2017code.Dblayer.RecordSet.{Record, cell_text, fetched, execute_sql, new_record_set}
use vs2017code.Dblayer.Operation.{ensure_connected}
use vs2017code.Dblayer.Operation.Reconnect.{ensure_connected_live}
use vs2017code.Dblayer.Statement.{read_rows}
use vs2017code.Dblayer.Statement.Rows.{Reads, read_rows_lem, length-map, take_all}

module _ {p : Platform} {A : Type 0} (read : A → Record → Option A) (field : A) where
  -- A reader into a vector that returns false when there are no rows.
  unfoldable pub query_rows_some : Bytes → List A → M p (Bool × List A)
  unfolding execute_sql
  query_rows_some sql vec =
      catch_all (false, vec)
        (do
          ensure_connected
          answer ← execute_sql new_record_set sql
          elim answer.0 [
            | negsuc n ↦ return (false, vec)
            | pos count ↦ elim count [
              | zero ↦ return (false, vec)
              | suc more ↦ read_rows read field (take (suc more) answer.1.rows) vec
            ]
          ])

  -- The same for a reader that returns 1, 0 without a row and -1 on a failure.
  unfoldable pub query_rows_code : Bytes → List A → M p (ℤ × List A)
  unfolding execute_sql
  query_rows_code sql vec =
      catch_all (minus_one, vec)
        (do
          ensure_connected
          answer ← execute_sql new_record_set sql
          elim answer.0 [
            | negsuc n ↦ return (minus_one, vec)
            | pos count ↦ elim count [
              | zero ↦ return (pos 0, vec)
              | suc more ↦ do
                filled ← read_rows read field (take (suc more) answer.1.rows) vec
                return (pos 1, filled.1)
            ]
          ])

  -- A reader of the first row into its argument: 1, or 0 when there are no rows, or -1 when an
  -- exception is caught; `failure` is what it returns when the query fails.
  unfoldable pub query_row : ℤ → Bytes → M p (ℤ × A)
  unfolding execute_sql
  query_row failure sql =
      catch_all (minus_one, field)
        (do
          ensure_connected
          answer ← execute_sql new_record_set sql
          elim answer.0 [
            | negsuc n ↦ return (failure, field)
            | pos count ↦ elim count [
              | zero ↦ return (pos 0, field)
              | suc more ↦ do
                row ← at_index (get_elem? answer.1.rows 0)
                filled ← at_index (read field row)
                return (pos 1, filled)
            ]
          ])

  -- The same for a reader that returns a `bool`.
  unfoldable pub query_one : Bytes → M p (Bool × A)
  unfolding execute_sql
  query_one sql =
      catch_all (false, field)
        (do
          ensure_connected
          answer ← execute_sql new_record_set sql
          elim answer.0 [
            | negsuc n ↦ return (false, field)
            | pos count ↦ elim count [
              | zero ↦ return (false, field)
              | suc more ↦ do
                row ← at_index (get_elem? answer.1.rows 0)
                filled ← at_index (read field row)
                return (true, filled)
            ]
          ])

module _ {p : Platform} {A : Type 0} (read : A → Record → Option A) (field : A) (sql : Bytes)
    (s t : Session p) (server : p.Server) where
  -- The check passed, and the server answered with at least one row.
  pub query_row_found :
      (failure : ℤ) (fields : List (Bytes × ℕ)) (raw : List (Option Bytes))
      (raws : List (List (Option Bytes))) (filled : A)
      → ensure_connected s ≡ (ok tt, t)
      → p.real_query t.server (c_string sql) ≡ (result_set fields (raw ∷ raws), server)
      → length (raw ∷ raws) < 2 ^ 31
      → read field (map cell_text raw) ≡ some filled
      → query_row read field failure sql s ≡ (ok (pos 1, filled), record t { server = server })
  unfolding query_row fetched
  query_row_found failure fields raw raws filled c q size e =
      ground (arith, ensure_connected_live s)

  pub query_one_found :
      (fields : List (Bytes × ℕ)) (raw : List (Option Bytes)) (raws : List (List (Option Bytes)))
      (filled : A)
      → ensure_connected s ≡ (ok tt, t)
      → p.real_query t.server (c_string sql) ≡ (result_set fields (raw ∷ raws), server)
      → length (raw ∷ raws) < 2 ^ 31
      → read field (map cell_text raw) ≡ some filled
      → query_one read field sql s ≡ (ok (true, filled), record t { server = server })
  unfolding query_one fetched
  query_one_found fields raw raws filled c q size e = ground (arith, ensure_connected_live s)

  -- The check passed, and there was no row.
  pub query_row_empty :
      (failure : ℤ) (fields : List (Bytes × ℕ))
      → ensure_connected s ≡ (ok tt, t)
      → p.real_query t.server (c_string sql) ≡ (result_set fields [], server)
      → query_row read field failure sql s ≡ (ok (pos 0, field), record t { server = server })
  unfolding query_row fetched
  query_row_empty failure fields c q = ground (arith, ensure_connected_live s)

  -- The check passed, and the query failed.
  pub query_row_failure :
      (failure : ℤ)
      → ensure_connected s ≡ (ok tt, t)
      → p.real_query t.server (c_string sql) ≡ (failed, server)
      → query_row read field failure sql s ≡ (ok (failure, field), record t { server = server })
  unfolding query_row
  query_row_failure failure c q = ground (arith, ensure_connected_live s)

  -- The vector reader, on rows that are all accepted; without rows it returns false.
  pub query_rows_some_success :
      (fields : List (Bytes × ℕ)) (raws : List (List (Option Bytes))) (xs vec : List A)
      → ensure_connected s ≡ (ok tt, t)
      → p.real_query t.server (c_string sql) ≡ (result_set fields raws, server)
      → length raws < 2 ^ 31
      → Reads read field (map (map cell_text) raws) xs
      → query_rows_some read field sql vec s ≡ (
        ok (elim raws [ [] ↦ (false, vec) | raw ∷ rest ↦ (true, vec ++ xs) ]),
        record t { server = server },
      )
  unfolding query_rows_some fetched
  query_rows_some_success fields [] xs vec c q size reads = ground (arith, ensure_connected_live s)
  query_rows_some_success fields (raw ∷ raws) xs vec c q size reads = ground (
    arith,
    ensure_connected_live s,
    length-map (map cell_text) raws,
    take_all (map (map cell_text) raws) (length raws),
    read_rows_lem read field (map (map cell_text) (raw ∷ raws)) xs vec
        (record t { server = server }) reads,
  )
