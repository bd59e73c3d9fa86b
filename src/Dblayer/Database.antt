-- ===== src/Dblayer/Database.antt =====
-- dblayer/src/mysql/MysqlDataBase.cpp: CDataBase, the connection and the statements without a
-- result. Results keep the C++ `int`: 0 or a count for success, -1 for failure.
pub mod Connection
pub mod Queries
use vs2017code.Base.{
  ℕ, ◌+◌, ◌-◌, ◌^◌, Bytes, codes, Bool, true, false, ℤ, pos, negsuc, is_negative, to_int32,
}
use vs2017code.Dblayer.Platform.{
  Platform, Login, Reply, failed, affected, result_set, Handle, null, live, freed, Session, Outcome,
  ok, fault, M, return, ◌>>=◌,
}

abbrev pub minus_one : ℤ
minus_one = negsuc 0

-- `(int)mysql_affected_rows`, which is (my_ulonglong)-1 before a result set is fetched; -1 for a
-- failed statement.
unfoldable pub affected_rows : Reply → ℤ
affected_rows failed = minus_one
affected_rows (affected n) = to_int32 n
affected_rows (result_set fields rows) = to_int32 (2 ^ 64 - 1)

-- `if (!mysql_real_query(…)) return 0; else return -1;`
pub zero_on_success : Reply → ℤ
zero_on_success failed = minus_one
zero_on_success (affected n) = pos 0
zero_on_success (result_set fields rows) = pos 0

module _ {p : Platform} where
  -- `mysql_close(m_Data); return -1;`, which leaves `m_Data` as it is.
  unfoldable pub close_and_fail : Session p → Outcome ℤ × Session p
  close_and_fail s = (
    ok minus_one,
    record s { handle = freed; open_handles = s.open_handles - 1; server = p.close s.server },
  )

  -- After `mysql_real_connect`; the server is that after the call.
  unfoldable pub connected : Bytes → Session p → Outcome ℤ × Session p
  unfolding close_and_fail
  connected db s =
      let named = p.set_character_set s.server (codes "gb2312") in
      let (code, server) = p.select_db named db in
      elim (is_negative code) [
        | true ↦ close_and_fail (record s { server = server })
        | false ↦ (ok (pos 0), record s { server = server })
      ]

  unfoldable pub connect : Login → M p ℤ
  unfolding connected
  connect login s = elim (p.init_succeeds s.server) [
    | false ↦ (ok minus_one, record s { handle = null })
    | true ↦
        let allocated : Session p = record s { handle = live; open_handles = s.open_handles + 1 } in
        elim (p.options_succeed s.server) [
          | false ↦ close_and_fail allocated
          | true ↦
              let (success, server) = p.real_connect s.server login in
              elim success [
                | false ↦ close_and_fail (record allocated { server = server })
                | true ↦ connected login.db (record allocated { server = server })
              ]
        ]
  ]

  -- `mysql_close` of NULL does nothing, of a freed handle it frees twice.
  pub dis_connect : M p (Unit {0})
  dis_connect s = elim s.handle [
    | null ↦ (ok tt, s)
    | live ↦ (
      ok tt,
      record s { handle = null; open_handles = s.open_handles - 1; server = p.close s.server },
    )
    | freed ↦ (fault, s)
  ]

  unfoldable pub ping : M p ℤ
  ping s = elim s.handle [
    | null ↦ (ok minus_one, s)
    | live ↦
        let (alive, server) = p.ping_succeeds s.server in
        elim alive [
          | true ↦ (ok (pos 0), record s { server = server })
          | false ↦ (ok minus_one, record s { server = server })
        ]
    | freed ↦ (fault, s)
  ]

  -- `mysql_real_query` on the handle.
  unfoldable pub query : Bytes → M p Reply
  query sql s = elim s.handle [
    | null ↦ (fault, s)
    | live ↦
        let (reply, server) = p.real_query s.server sql in (ok reply, record s { server = server })
    | freed ↦ (fault, s)
  ]

  unfoldable pub exec_query : Bytes → M p ℤ
  unfolding query affected_rows
  exec_query sql = do reply ← query sql; return (affected_rows reply)

  pub start_transaction : M p ℤ
  unfolding query zero_on_success
  start_transaction = do reply ← query (codes "START TRANSACTION"); return (zero_on_success reply)

  pub commit : M p ℤ
  unfolding query zero_on_success
  commit = do reply ← query (codes "COMMIT"); return (zero_on_success reply)

  pub rollback : M p ℤ
  unfolding query zero_on_success
  rollback = do reply ← query (codes "ROLLBACK"); return (zero_on_success reply)

  -- The destructor.
  pub destroy : M p (Unit {0})
  unfolding dis_connect
  destroy s = elim s.handle [ null ↦ (ok tt, s) | live ↦ dis_connect s | freed ↦ dis_connect s ]
