-- ===== src/Service/Deal.antt =====
-- comServer::dealMessage of Deli_time_server/Deli_time_server/server.cc, behind the parsing of the
-- request: an upload is decompressed and stored, a query is answered. A thread of the pool runs it;
-- `malloc` succeeds, and the memory that is not freed is left out.
pub mod Unpack
pub mod Upload
pub mod Download
pub mod Lending
pub mod RoundTrip
use vs2017code.Base.{
  int_eq, ℕ, zero, suc, ◌-◌, ◌*◌, ◌^◌, Bytes, Bool, true, false, ◌&&◌, List, [], ◌∷◌, ◌++◌, Option,
  none, some, leb, if◌then◌else◌, length, take, codes, c_string, bytes_eq, ℤ, pos, negsuc, ◌==◌,
}
use vs2017code.Framing.Header.{Request, parse_message, send}
use vs2017code.Dblayer.Platform.{Platform}
use vs2017code.Pool.{Pool, Connection, get_one_connect, give_back}
use vs2017code.Service.Result.{Result, done, undefined, unfinished, ◌>>=◌}
use vs2017code.Service.Gzip.{Zlib, gz_compress, gz_decompress, z_buf_error, is_empty}
use vs2017code.Service.Database.{mysql_insert, mysql_query}

abbrev pub zeros : ℕ → Bytes
zeros zero = []
zeros (suc n) = 0 ∷ zeros n

-- A block of `size` bytes, cleared by `memset`, after a write at its start.
abbrev pub block : ℕ → Bytes → Bytes
block size written = written ++ zeros (size - length written)

-- `string(p)` of a block: it reads up to a NUL byte, and without one past the end.
unfoldable pub string_of : Bytes → Result Bytes
string_of [] = undefined
string_of (c ∷ s) = let rest = string_of s in if c == 0 then done [] else rest >>= λ t. done (c ∷ t)

-- `n * 2` of an `int`.
unfoldable pub double : ℕ → Result ℕ
double n = if leb (2 ^ 31) (n * 2) then undefined else done (n * 2)

-- The server that the handlers share: MySQL behind the connections, the pool, and the bytes that were
-- handed to connections.
pub record World (p : Platform) : Type 0 where
  pub server : p.Server
  pub pool : Pool
  pub sent : List Bytes

module _ (z : Zlib) where
  -- `while (ret == -5)`, and the block that is left.
  unfoldable pub unpack_loop : ℕ → Bytes → ℕ → Result Bytes
  unfolding double
  unpack_loop zero source dest_len = unfinished
  unpack_loop (suc fuel) source dest_len =
      let (ret, written) = gz_decompress z source dest_len in
      let again = double dest_len >>= unpack_loop fuel source in
      if int_eq ret z_buf_error then again else done (block dest_len written)

  -- From the body of an upload to its text.
  unfoldable pub unpack : ℕ → Bytes → Result Bytes
  unfolding unpack_loop string_of double
  unpack fuel body = do
    dest_len ← double (length body)
    uncompressed ← unpack_loop fuel body dest_len
    string_of uncompressed

  -- `string(compressed, gzSize)` of a block of `dest_len` bytes, or `none` for `gzSize <= 0`.
  unfoldable pub packed : ℕ → ℤ × Bytes → Result (Option Bytes)
  packed dest_len (pos zero, written) = done none
  packed dest_len (pos (suc n), written) =
      if leb (suc n) dest_len
      then done (some (take (suc n) (block dest_len written)))
      else undefined
  packed dest_len (negsuc n, written) = done none

  unfoldable pub pack : ℕ → Bytes → Result (Option Bytes)
  unfolding double packed
  pack fuel content = do
    dest_len ← double (length content)
    result ← gz_compress z fuel content dest_len
    packed dest_len result

  module _ (p : Platform) where
    -- The text is stored if `getOneConnect` gives a connection, which goes back at `now`.
    unfoldable pub store : ℕ → Bytes → Bytes → World p → Option Connection × Pool → World p
    store now user_name content world (none, pool) = record world { pool = pool }
    store now user_name content world (some c, pool) = record world {
      server = mysql_insert p user_name content world.server;
      pool = give_back now c pool;
    }

    -- `RQUPJ` with the format `GZIP`.
    unfoldable pub deal_upload : ℕ → ℕ → Bytes → Bytes → World p → Result (World p)
    unfolding unpack store
    deal_upload fuel now user_name body world = do
      content ← unpack fuel body
      done (store now user_name content world (get_one_connect world.pool))

    -- `codec_.send`; `stack` is what the memory of its header holds.
    unfoldable pub hand_over : World p → Option Bytes → Result (World p)
    hand_over world none = undefined
    hand_over world (some bytes) = done (record world { sent = world.sent ++ bytes ∷ [] })

    unfoldable pub send_packed : Bytes → Bytes → World p → Option Bytes → Result (World p)
    unfolding hand_over
    send_packed stack user_name world none = done world
    send_packed stack user_name world (some body) =
        hand_over world (send stack (codes "RSDPJ") (codes "GZIP") user_name body)

    -- What is done with the result of the query.
    unfoldable pub answer : ℕ → Bytes → Bytes → Bytes → World p → Result (World p)
    unfolding pack send_packed is_empty
    answer fuel stack user_name content world =
        if is_empty z content
        then done world
        else (if bytes_eq content (codes "FAIL")
            then hand_over world (send stack (codes "RSDPJ") (codes "TXT") user_name content)
            else pack fuel content >>= send_packed stack user_name world)

    -- The pointer that `getOneConnect` returns is used without a test.
    unfoldable pub look_up :
        ℕ → ℕ → Bytes → Bytes → World p → Option Connection × Pool → Result (World p)
    unfolding answer
    look_up fuel now stack user_name world (none, pool) = undefined
    look_up fuel now stack user_name world (some c, pool) = do
      result ← mysql_query p user_name [] world.server
      let returned : World p = record world { server = result.1; pool = give_back now c pool }
      answer fuel stack user_name result.0 returned

    -- `RQDPJ`.
    unfoldable pub deal_download : ℕ → ℕ → Bytes → Bytes → World p → Result (World p)
    unfolding look_up
    deal_download fuel now stack user_name world =
        look_up fuel now stack user_name world (get_one_connect world.pool)

    unfoldable pub deal_request : ℕ → ℕ → Bytes → Request → World p → Result (World p)
    unfolding deal_upload deal_download
    deal_request fuel now stack r world =
        if bytes_eq r.cmd (codes "RQUPJ") && bytes_eq r.format (codes "GZIP")
        then deal_upload fuel now r.user_name r.body world
        else (if bytes_eq r.cmd (codes "RQDPJ")
            then deal_download fuel now stack r.user_name world
            else done world)

    unfoldable pub deal_message : ℕ → ℕ → Bytes → Bytes → World p → Result (World p)
    unfolding deal_request
    deal_message fuel now stack msg world = elim (parse_message msg) [
      | none ↦ done world
      | some request ↦ deal_request fuel now stack request world
    ]
