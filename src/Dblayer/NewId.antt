-- ===== src/Dblayer/NewId.antt =====
-- The updates of DBOperation.cpp that number a new row: a number of 0 is replaced by the largest one of
-- the table after the statement. They have no `catch`.
use vs2017code.Base.{
  ℕ, zero, suc, ◌≡◌, arith, Bytes, codes, Bool, true, false, List, [], ◌∷◌, Option, some, get_elem?,
  c_string, if◌then◌else◌, ℤ, pos, negsuc, is_ge, is_minus_one, int_eq,
}
use vs2017code.Dblayer.Platform.{
  Platform, affected, result_set, Session, ok, live, M, return, at_index, ◌>>=◌, ◌>>◌,
}
use vs2017code.Dblayer.Database.{exec_query, affected_rows}
use vs2017code.Dblayer.RecordSet.{cell, cell_text, fetched, execute_sql, new_record_set}
use vs2017code.Dblayer.Operation.{ensure_connected}
use vs2017code.Dblayer.Operation.Reconnect.{ensure_connected_live}

-- `(id <= 0) ? "0" : lexical_cast<string>(id)`
unfoldable pub id_text : (p : Platform) → p.Int → Bytes
id_text p id = if is_ge (pos 0) (p.int_value id) then codes "0" else p.print_int id

module _ {p : Platform} where
  -- The query for the number, and the number afterwards.
  unfoldable pub take_new_id : Bytes → p.Int → M p (Bool × p.Int)
  unfolding execute_sql cell
  take_new_id select id = do
    answer ← execute_sql new_record_set select
    elim answer.0 [
      | negsuc n ↦ return (false, id)
      | pos count ↦ elim count [
        | zero ↦ return (false, id)
        | suc more ↦ do
          row ← at_index (get_elem? answer.1.rows 0)
          text ← at_index (cell row 0)
          return (true, p.to_int text)
      ]
    ]

  -- After the statement, with the count of its rows.
  unfoldable pub number_row : Bytes → p.Int → ℤ → M p (Bool × p.Int)
  unfolding take_new_id
  number_row select id count =
      if is_minus_one count
      then return (false, id)
      else (if int_eq (p.int_value id) (pos 0) then take_new_id select id else return (true, id))

  unfoldable pub upd_with_id : Bytes → Bytes → p.Int → M p (Bool × p.Int)
  unfolding exec_query number_row
  upd_with_id insert select id = do
    ensure_connected
    count ← exec_query insert
    number_row select id count

  take_new_id_found :
      (select text : Bytes) (id : p.Int) (t : Session p) (fields : List (Bytes × ℕ))
      (raw : List (Option Bytes)) (server : p.Server)
      → t.handle ≡ live
      → p.real_query t.server (c_string select)
        ≡ (result_set fields ((some text ∷ raw) ∷ []), server)
      → take_new_id select id t
        ≡ (ok (true, p.to_int (c_string text)), record t { server = server })
  unfolding take_new_id fetched cell cell_text
  take_new_id_found select text id t fields raw server alive q = ground arith

  -- A row without a number gets the one that the server gives for the largest.
  pub upd_with_id_new :
      (insert select text : Bytes) (id : p.Int) (s t : Session p) (changed : ℕ)
      (fields : List (Bytes × ℕ)) (raw : List (Option Bytes)) (middle server : p.Server)
      → p.int_value id ≡ pos 0
      → ensure_connected s ≡ (ok tt, t)
      → p.real_query t.server insert ≡ (affected changed, middle)
      → is_minus_one (affected_rows (affected changed)) ≡ false
      → p.real_query middle (c_string select) ≡ (result_set fields ((some text ∷ raw) ∷ []), server)
      → upd_with_id insert select id s
        ≡ (ok (true, p.to_int (c_string text)), record t { server = server })
  unfolding upd_with_id number_row
  upd_with_id_new insert select text id s t changed fields raw middle server new c q done q' =
      ground (
        arith,
        ensure_connected_live s,
        take_new_id_found select text id (record t { server = middle }) fields raw server,
      )

  -- A row with a number keeps it.
  pub upd_with_id_old :
      (insert select : Bytes) (id : p.Int) (s t : Session p) (changed : ℕ) (server : p.Server)
      → int_eq (p.int_value id) (pos 0) ≡ false
      → ensure_connected s ≡ (ok tt, t)
      → p.real_query t.server insert ≡ (affected changed, server)
      → is_minus_one (affected_rows (affected changed)) ≡ false
      → upd_with_id insert select id s ≡ (ok (true, id), record t { server = server })
  unfolding upd_with_id number_row
  upd_with_id_old insert select id s t changed server old c q done =
      ground (arith, ensure_connected_live s)
