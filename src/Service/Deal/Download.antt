-- ===== src/Service/Deal/Download.antt =====
-- What a query is answered with.
use vs2017code.Base.{
  ℕ, suc, ◌-◌, ◌*◌, ◌^◌, ◌≤◌, ◌<◌, ◌≡◌, inl, inr, refl, ap, ◌∙◌, arith, true, false, Bytes, List,
  ◌∷◌, [], ◌++◌, Option, some, length, leb, take-append_length, codes, bytes_eq, c_string, pos,
}
use vs2017code.Framing.Delimiter.{deli}
use vs2017code.Framing.Header.{parse_message}
use vs2017code.Framing.Header.Memory.{IsText, c_string_text}
use vs2017code.Framing.Header.RoundTrip.{Fits, parse_message-send}
use vs2017code.Dblayer.Platform.{Platform, result_set}
use vs2017code.Pool.{Pool, Connection, get_one_connect, give_back}
use vs2017code.Service.Result.{done}
use vs2017code.Service.Gzip.{Zlib, gz_compress, gz_decompress, z_stream_end, is_empty}
use vs2017code.Service.Gzip.RoundTrip.{IsDeflated, gz_compress_outcome}
use vs2017code.Service.Database.{mysql_query, set_utf8, query_text, first_content}
use vs2017code.Service.Database.Texts.{sprintf-query_text}
use vs2017code.Service.Deal.{
  World, deal_message, deal_request, deal_download, look_up, answer, send_packed, hand_over, pack,
  packed, zeros,
}
use vs2017code.Service.Deal.Unpack.{IsInflated, double-done}

-- The answer to a query, as a request that its receiver takes apart.
module _ (z : Zlib) (p : Platform) (fuel now : ℕ) (stack msg format user_name ignored : Bytes)
    (world : World p) where
  deal_message-deal_download :
      parse_message msg
        ≡ some
            (record { cmd = codes "RQDPJ"; format = format; user_name = user_name; body = ignored })
      → deal_message z p fuel now stack msg world ≡ deal_download z p fuel now stack user_name world
  unfolding deal_message deal_request bytes_eq
  deal_message-deal_download e = rw (deal_message, e) refl

  pub mysql_query_stored :
      (server : p.Server) (fields : List (Bytes × ℕ)) (row : List (Option Bytes))
      (rows : List (List (Option Bytes))) (content : Bytes)
      → length (c_string user_name) ≤ 12
      → IsText content
      → p.real_query (set_utf8 p world.server) (query_text user_name)
        ≡ (result_set fields ((some content ∷ row) ∷ rows), server)
      → mysql_query p user_name [] world.server ≡ done (content, server)
  unfolding mysql_query first_content
  mysql_query_stored server fields row rows content short text reply =
      rw (sprintf-query_text user_name short, reply, c_string_text content text) refl

  pack-Compressed :
      (content out : Bytes) (count : ℕ)
      → length content * 2 < 2 ^ 31
      → gz_compress z fuel content (length content * 2) ≡ done (pos (suc count), out)
      → length out < length content * 2
      → IsDeflated z content out × (pack z fuel content ≡ done (some out))
  unfolding pack packed
  pack-Compressed content out count size e room =
      elim (gz_compress_outcome z content fuel (length content * 2) (suc count) out e) [
        | inr cut ↦ absurd (omega (arith, cut.filled))
        | inl (deflated, same) ↦
            let fits : leb (suc count) (length content * 2) ≡ true = ground (arith, same) in
            (
              deflated,
              rw (double-done (length content) size, e, fits, same)
                  (ap (λ s. done (some s))
                    (take-append_length out (zeros (length content * 2 - length out)))),
            )
      ]

  answer_lem :
      (content out : Bytes) (count : ℕ)
      → length stack ≡ 44
      → Fits (codes "RSDPJ") (codes "GZIP") user_name
      → 0 < length content
      → bytes_eq content (codes "FAIL") ≡ false
      → length content * 2 < 2 ^ 31
      → gz_compress z fuel content (length content * 2) ≡ done (pos (suc count), out)
      → length out < length content * 2
      → (message : Bytes) × ((w : World p)
          → answer z p fuel stack user_name content w
            ≡ done (record w { sent = w.sent ++ (message ++ deli) ∷ [] }))
        × (parse_message message
            ≡ some (record {
              cmd = codes "RSDPJ";
              format = codes "GZIP";
              user_name = user_name;
              body = out;
            }))
        × IsDeflated z content out
  unfolding answer send_packed hand_over is_empty
  answer_lem [] out count stack_size fits some_content no_fail size e room = absurd (omega arith)
  answer_lem (d ∷ content) out count stack_size fits some_content no_fail size e room =
      let (deflated, packed_out) = pack-Compressed (d ∷ content) out count size e room in
      let (message, sent, parsed) =
        parse_message-send stack (codes "RSDPJ") (codes "GZIP") user_name out stack_size fits in
      (message, (λ w. rw (no_fail, packed_out, sent) refl), parsed, deflated)

  -- If the server finds the user's text, of which deflate makes a complete stream in less than twice
  -- its size, then the answer that is sent has the command RSDPJ, the format GZIP and the user's
  -- name, and a body that decompresses to the text; and the connection goes back to the pool.
  pub download_lem :
      (c : Connection) (pool : Pool) (server : p.Server) (fields : List (Bytes × ℕ))
      (row : List (Option Bytes)) (rows : List (List (Option Bytes))) (content out : Bytes)
      (count : ℕ)
      → parse_message msg
        ≡ some
            (record { cmd = codes "RQDPJ"; format = format; user_name = user_name; body = ignored })
      → get_one_connect world.pool ≡ (some c, pool)
      → p.real_query (set_utf8 p world.server) (query_text user_name)
        ≡ (result_set fields ((some content ∷ row) ∷ rows), server)
      → length stack ≡ 44
      → Fits (codes "RSDPJ") (codes "GZIP") user_name
      → length user_name ≤ 12
      → IsText content
      → 0 < length content
      → bytes_eq content (codes "FAIL") ≡ false
      → length content * 2 < 2 ^ 31
      → gz_compress z fuel content (length content * 2) ≡ done (pos (suc count), out)
      → length out < length content * 2
      → ((s : Bytes) → IsDeflated z content s → IsInflated z s content)
      → (message : Bytes) × (deal_message z p fuel now stack msg world
          ≡ done (record {
            server = server;
            pool = give_back now c pool;
            sent = world.sent ++ (message ++ deli) ∷ [];
          }))
        × (parse_message message
            ≡ some (record {
              cmd = codes "RSDPJ";
              format = codes "GZIP";
              user_name = user_name;
              body = out;
            }))
        × (gz_decompress z out (length content) ≡ (z_stream_end, content))
  unfolding deal_download look_up gz_decompress
  download_lem c pool server fields row rows content out count e lent reply stack_size fits short
        text some_content no_fail size compressed room lossless =
      let (message, answered, parsed, deflated) =
        answer_lem content out count stack_size fits some_content no_fail size compressed room in
      let short' : length (c_string user_name) ≤ 12 =
        omega (arith, ap length (c_string_text user_name fits.user_text)) in
      let inflated = lossless out deflated in
      (
        message,
        deal_message-deal_download e
            ∙ rw (lent, mysql_query_stored server fields row rows content short' text reply)
                (answered _),
        parsed,
        rw (inflated.init_ok) (inflated.fits (length content) (omega arith)),
      )
