-- ===== src/Service/Database/Texts.antt =====
-- The arrays into which a MysqlConnection prints its statements, and the lengths of user names.
use vs2017code.Base.{
  ◌+◌, ◌≤◌, ◌<◌, ◌≡◌, refl, arith, Bytes, length, length-append, leb, codes, c_string, true, false,
}
use vs2017code.Dblayer.Platform.{Platform}
use vs2017code.Service.Result.{done, undefined}
use vs2017code.Service.Database.{sprintf, query_text, delete_text, mysql_query, mysql_delete}

length-query_text :
    (user_name : Bytes) → length (query_text user_name) ≡ 51 + length (c_string user_name)
length-query_text user_name = omega (arith, length-append (c_string user_name) (codes "\""))

length-delete_text :
    (user_name : Bytes) → length (delete_text user_name) ≡ 42 + length (c_string user_name)
length-delete_text user_name = omega (arith, length-append (c_string user_name) (codes "\""))

pub sprintf-query_text :
    (user_name : Bytes)
    → length (c_string user_name) ≤ 12
    → sprintf 64 (query_text user_name) ≡ done (query_text user_name)
unfolding sprintf
sprintf-query_text user_name l =
    let fits : leb (length (query_text user_name) + 1) 64 ≡ true =
      ground (arith, length-query_text user_name) in
    rw (fits) refl

module _ (p : Platform) where
  -- The query of a user whose name has more than 12 bytes writes past the end of its array.
  pub mysql_query_overflow :
      (user_name get_res : Bytes) (server : p.Server)
      → 12 < length (c_string user_name)
      → mysql_query p user_name get_res server ≡ undefined
  unfolding mysql_query sprintf
  mysql_query_overflow user_name get_res server l =
      let over : leb (length (query_text user_name) + 1) 64 ≡ false =
        ground (arith, length-query_text user_name) in
      rw (over) refl

  -- The deletion of a user whose name has at most 32 bytes sends its statement.
  pub mysql_delete_sends :
      (user_name : Bytes) (server : p.Server)
      → length (c_string user_name) ≤ 32
      → mysql_delete p user_name server ≡ done (p.real_query server (delete_text user_name)).1
  unfolding mysql_delete sprintf
  mysql_delete_sends user_name server l =
      let fits : leb (length (delete_text user_name) + 1) 120 ≡ true =
        ground (arith, length-delete_text user_name) in
      rw (fits) refl
