-- ===== src/Service/Database.antt =====
-- MysqlConnection of Deli_time_server/Deli_time_server/{mysqlConnection.h,mysqlConnection.cc}: the
-- statements that it sends for a user. The MySQL C API is the Platform of the database layer; the
-- connection's handle and its log lines are left out, a live one is used.
pub mod Texts
pub mod Keeping
use vs2017code.Base.{
  ℕ, ◌+◌, Bytes, Bool, not, List, [], ◌∷◌, ◌++◌, Option, none, some, leb, if◌then◌else◌, length,
  codes, c_string,
}
use vs2017code.Dblayer.Platform.{Platform, Login, Reply, failed, affected, result_set}
use vs2017code.Service.Result.{Result, done, undefined, ◌>>=◌}

-- TABLE_NAME
abbrev pub table_name : Bytes
table_name = codes "jsonServer"

-- `sprintf` into an array of `size` chars: past its end it is undefined.
unfoldable pub sprintf : ℕ → Bytes → Result Bytes
sprintf size text = if leb (length text + 1) size then done text else undefined

abbrev pub insert_text : Bytes → Bytes → Bytes
insert_text user_name content =
    codes "REPLACE INTO "
    ++ (table_name
        ++ (codes "(UserName,content) VALUES(\""
            ++ (user_name ++ (codes "\",'" ++ (content ++ codes "') ")))))

abbrev pub delete_text : Bytes → Bytes
delete_text user_name =
    codes "DELETE FROM "
    ++ (codes " "
        ++ (table_name ++ (codes " where UserName =\"" ++ (c_string user_name ++ codes "\""))))

abbrev pub query_text : Bytes → Bytes
query_text user_name =
    codes "SELECT content FROM "
    ++ (codes " "
        ++ (table_name ++ (codes " where UserName = \"" ++ (c_string user_name ++ codes "\""))))

module _ (p : Platform) where
  -- `connect`, with a port, a socket and flags of 0.
  unfoldable pub connect : Bytes → Bytes → Bytes → Bytes → p.Server → Bool × p.Server
  connect ip username password dbname server = p.real_connect server (record {
    host = c_string ip;
    user = c_string username;
    passwd = c_string password;
    db = c_string dbname;
    port = 0;
    client_flag = 0;
  })

  -- The text has 17 bytes with its NUL, and each caller's array 48.
  unfoldable pub set_utf8 : p.Server → p.Server
  set_utf8 server = (p.real_query server (codes "set names 'utf8'")).1

  -- A failure is logged and no more.
  unfoldable pub mysql_insert : Bytes → Bytes → p.Server → p.Server
  unfolding set_utf8
  mysql_insert user_name content server =
      (p.real_query (set_utf8 server) (insert_text user_name content)).1

  unfoldable pub mysql_delete : Bytes → p.Server → Result p.Server
  unfolding sprintf
  mysql_delete user_name server = do
    query ← sprintf 120 (delete_text user_name)
    done (p.real_query server query).1

  -- `getRes` after the query, from what it was: `row[0]` is a C string, and NULL for a NULL value.
  -- Without a result set `mysql_fetch_row` gets a null pointer.
  unfoldable pub first_content : Reply → Bytes → Result Bytes
  first_content failed get_res = done get_res
  first_content (affected n) get_res = undefined
  first_content (result_set fields []) get_res = done (codes "FAIL")
  first_content (result_set fields ([] ∷ rows)) get_res = undefined
  first_content (result_set fields ((none ∷ row) ∷ rows)) get_res = undefined
  first_content (result_set fields ((some content ∷ row) ∷ rows)) get_res = done (c_string content)

  unfoldable pub mysql_query : Bytes → Bytes → p.Server → Result (Bytes × p.Server)
  unfolding sprintf set_utf8 first_content
  mysql_query user_name get_res server = do
    query ← sprintf 64 (query_text user_name)
    let (reply, after) = p.real_query (set_utf8 server) query
    content ← first_content reply get_res
    done (content, after)

  -- `mysql_ping` is 0 for a live connection, and so the result is true for a dead one.
  unfoldable pub mysql_ping : p.Server → Bool × p.Server
  mysql_ping server = let (alive, after) = p.ping_succeeds server in (not alive, after)

  unfoldable pub mysql_close : p.Server → p.Server
  mysql_close server = p.close server
