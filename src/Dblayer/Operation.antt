-- ===== src/Dblayer/Operation.antt =====
-- dblayer/src/mysql/DBOperation.cpp: the connection of a CDBOperation, and the steps that each of its
-- operations on a table is made of.
pub mod Reconnect
use vs2017code.Base.{
  ℕ, Bytes, codes, Bool, true, false, not, List, [], ◌∷◌, ◌++◌, ℤ, pos, negsuc, is_minus_one,
  if◌then◌else◌,
}
use vs2017code.Dblayer.Platform.{
  Platform, Login, Session, Outcome, ok, M, return, ◌>>=◌, ◌>>◌, throw, catch_all, continue_with,
}
use vs2017code.Dblayer.Database.{connect, dis_connect, ping, exec_query}

module _ {p : Platform} where
  -- ConnectDB with the arguments; the log lines are left out.
  pub connect_db : Login → M p Bool
  connect_db login = catch_all false (do
    code ← connect login
    if is_minus_one code then throw else λ s. (ok true, record s { login = login }))

  -- ConnectDB with the stored arguments, and 0 for the client flag.
  unfoldable pub reconnect : M p (Unit {0})
  reconnect s =
      continue_with (connect (record s.login { client_flag = 0 }) s)
        λ code. if is_minus_one code then throw else return tt

  -- `if (-1 == m_DataBase.Ping()) ConnectDB();`, before each statement.
  unfoldable pub ensure_connected : M p (Unit {0})
  ensure_connected = do code ← ping; if is_minus_one code then reconnect else return tt

  -- The part of an update behind its statement; the log lines are left out.
  unfoldable pub run_update : Bytes → M p Bool
  unfolding exec_query
  run_update sql = do ensure_connected; count ← exec_query sql; return (not (is_minus_one count))

  -- DisConnectDB.
  pub dis_connect_db : M p (Unit {0})
  dis_connect_db = dis_connect
