-- ===== src/Tests/Serving.antt =====
-- The request handler at concrete uploads and queries, with the compressor that copies.
use vs2017code.Base.{
  ℕ, zero, suc, ◌≤◌, ◌*◌, ◌≡◌, ◌⊎◌, length, refl, arith, Bytes, codes, List, [], ◌∷◌, ◌++◌, some,
  pos, negsuc, ℤ, true, bytes_eq, c_string,
}
use vs2017code.Framing.Delimiter.{deli, find, starts_with}
use vs2017code.Framing.Header.{parse_message, field_text, Request}
use vs2017code.Framing.Header.Memory.{IsText}
use vs2017code.Framing.Header.RoundTrip.{Fits}
use vs2017code.Dblayer.Platform.{Reply}
use vs2017code.Pool.{Pool, Connection, get_one_connect, give_back}
use vs2017code.Service.Result.{done, undefined, unfinished}
use vs2017code.Service.Gzip.{
  Zlib, gz_compress, gz_decompress, feed_loop, finish_compress, end_compress, finish_loop,
  call_deflate, is_empty, z_stream_end,
}
use vs2017code.Service.Gzip.Termination.{gz_compress_returns}
use vs2017code.Service.Gzip.RoundTrip.{Compressed, gz_compress_outcome}
use vs2017code.Service.Database.{mysql_query, mysql_insert, set_utf8}
use vs2017code.Service.Database.Texts.{mysql_query_overflow}
use vs2017code.Service.Deal.{
  World, deal_message, deal_request, deal_upload, store, unpack, unpack_loop, string_of, double,
}
use vs2017code.Service.Deal.Unpack.{doubled}
use vs2017code.Service.Deal.Upload.{upload_outcome, upload_empty}
use vs2017code.Service.Deal.RoundTrip.{IsLossless, IsInLimits, upload-download}
use vs2017code.Service.Database.Keeping.{IsLiteral}
use vs2017code.Tests.Keeping.{keeping, keeping-KeepsTexts}
use vs2017code.Service.Deal.Lending.{Returned, AnswersOnce, deal_message_returns_connection}
use vs2017code.Tests.Server.{scripted}
use vs2017code.Tests.Copying.{copying, copying_progresses, copying_lossless, copying_inflates}

abbrev text : Bytes
text = codes "[1,2]"

gz_compress_returns_example : (result : ℤ × Bytes) × (gz_compress copying 16 text 10 ≡ done result)
gz_compress_returns_example =
    gz_compress_returns copying copying_progresses 16 text 10 (omega arith)

compressed : gz_compress copying 16 text 10 ≡ done (pos 5, text)
unfolding gz_compress feed_loop finish_compress finish_loop end_compress call_deflate is_empty
compressed = refl

gz_compress_outcome_example : Compressed copying text 10 5 text
gz_compress_outcome_example = gz_compress_outcome copying text 16 10 5 text compressed

-- A message with the command, the format and the user's name, each with its NULs.
abbrev user : Bytes
user = codes "chao"

abbrev zeros28 : Bytes
zeros28 =
    0 ∷ 0 ∷ 0 ∷ 0 ∷ 0 ∷ 0 ∷ 0 ∷ 0 ∷ 0 ∷ 0 ∷ 0 ∷ 0 ∷ 0 ∷ 0 ∷ 0 ∷ 0 ∷ 0 ∷ 0 ∷ 0 ∷ 0 ∷ 0 ∷ 0 ∷ 0 ∷ 0
    ∷ 0 ∷ 0 ∷ 0 ∷ 0 ∷ []

abbrev request : Bytes → Bytes → Bytes
request cmd body = cmd ++ (0 ∷ 0 ∷ 0 ∷ codes "GZIP" ++ (user ++ (zeros28 ++ body)))

abbrev one_connection : Connection
one_connection = record { number = 0; alive_time = 100 }

abbrev pool_of : List Connection → Pool
pool_of queue = record { queue = queue; current_count = pos 1; allocated = 1 }

abbrev world : List Connection → List Reply → World scripted
world queue replies = record {
  server = record { alive = true; reachable = true; replies = replies };
  pool = pool_of queue;
  sent = [];
}

abbrev free : World scripted
free = world (one_connection ∷ []) []

abbrev parsed : (cmd body : Bytes) → Request
parsed cmd body = record { cmd = cmd; format = codes "GZIP"; user_name = user; body = body }

upload_parsed : parse_message (request (codes "RQUPJ") text) ≡ some (parsed (codes "RQUPJ") text)
unfolding parse_message field_text find starts_with
upload_parsed = refl

text-IsText : IsText text
text-IsText = (
  (λ e. omega arith),
  ((λ e. omega arith), ((λ e. omega arith), ((λ e. omega arith), ((λ e. omega arith), tt)))),
)

taken : get_one_connect free.pool ≡ (some one_connection, pool_of [])
unfolding get_one_connect
taken = refl

upload_outcome_example :
    (deal_message copying scripted 100 7 [] (request (codes "RQUPJ") text) free
      ≡ done (record free {
        server = mysql_insert scripted user text free.server;
        pool = give_back 7 one_connection (pool_of []);
      }))
    ⊎ ((rounds : ℕ) × (length text ≡ doubled rounds (length text * 2))
        × (deal_message copying scripted 100 7 [] (request (codes "RQUPJ") text) free ≡ undefined))
upload_outcome_example =
    upload_outcome copying scripted 100 7 [] (request (codes "RQUPJ") text) user text free
      one_connection (pool_of []) text upload_parsed taken (copying_inflates text (omega arith))
      (omega arith) (omega arith) text-IsText (omega arith) (omega arith)

stored :
    deal_message copying scripted 100 7 [] (request (codes "RQUPJ") text) free
    ≡ done (record free { pool = pool_of (record { number = 0; alive_time = 7 } ∷ []) })
unfolding deal_message deal_request bytes_eq deal_upload store unpack unpack_loop double string_of
    get_one_connect give_back mysql_insert set_utf8 gz_decompress parse_message field_text find
    starts_with
stored = refl

upload_empty_example :
    deal_message copying scripted 100 7 [] (request (codes "RQUPJ") []) free ≡ unfinished
unfolding parse_message field_text find starts_with gz_decompress
upload_empty_example =
    upload_empty copying scripted 100 7 [] (request (codes "RQUPJ") []) user [] free refl refl

-- A decompressor that finds an error in its data.
abbrev rejecting : Zlib
rejecting = record copying { inflate = λ state source room. (negsuc 2, []) }

deal_message_returns_connection_example :
    Returned copying scripted 100 7 [] free.pool
      (pool_of (record { number = 0; alive_time = 7 } ∷ []))
    × AnswersOnce copying scripted 100 7 [] [] []
deal_message_returns_connection_example =
    deal_message_returns_connection copying scripted 100 7 [] (request (codes "RQUPJ") text) free
      (record free { pool = pool_of (record { number = 0; alive_time = 7 } ∷ []) }) stored

query_parsed : parse_message (request (codes "RQDPJ") []) ≡ some (parsed (codes "RQDPJ") [])
unfolding parse_message field_text find starts_with
query_parsed = refl

mysql_query_overflow_example :
    mysql_query scripted (codes "chaoyuebro2017") [] (world [] []).server ≡ undefined
unfolding c_string
mysql_query_overflow_example =
    mysql_query_overflow scripted (codes "chaoyuebro2017") [] (world [] []).server (omega arith)

abbrev stack : Bytes
stack = codes "abcdefghijklmnopqrstuvwxyzabcdefghijklmnopqr"

user-Fits : Fits (codes "RSDPJ") (codes "GZIP") user
user-Fits = record {
  cmd_text = (
    (λ e. omega arith),
    ((λ e. omega arith), ((λ e. omega arith), ((λ e. omega arith), ((λ e. omega arith), tt)))),
  );
  cmd_some = omega arith;
  cmd_room = omega arith;
  format_text =
      ((λ e. omega arith), ((λ e. omega arith), ((λ e. omega arith), ((λ e. omega arith), tt))));
  format_some = omega arith;
  format_room = omega arith;
  user_text =
      ((λ e. omega arith), ((λ e. omega arith), ((λ e. omega arith), ((λ e. omega arith), tt))));
  user_some = omega arith;
  user_room = omega arith;
}

-- A world around the server that keeps texts.
abbrev kept : World keeping
kept = record { server = []; pool = pool_of (one_connection ∷ []); sent = [] }

text-IsLossless : IsLossless copying keeping 16 7 9 stack user text text
text-IsLossless = record {
  body_inflates = copying_inflates text (omega arith);
  streams_inflate = copying_lossless text (omega arith);
}

IsLiteral-text : IsLiteral 39 text
IsLiteral-text = (
  ((λ e. omega arith), (λ e. omega arith)),
  (
    ((λ e. omega arith), (λ e. omega arith)),
    (
      ((λ e. omega arith), (λ e. omega arith)),
      (((λ e. omega arith), (λ e. omega arith)), (((λ e. omega arith), (λ e. omega arith)), tt)),
    ),
  ),
)

IsLiteral-user : IsLiteral 34 user
IsLiteral-user = (
  ((λ e. omega arith), (λ e. omega arith)),
  (
    ((λ e. omega arith), (λ e. omega arith)),
    (((λ e. omega arith), (λ e. omega arith)), (((λ e. omega arith), (λ e. omega arith)), tt)),
  ),
)

doubled_grows : (rounds n : ℕ) → n ≤ doubled rounds n
unfolding doubled
doubled_grows zero n = omega arith
doubled_grows (suc rounds) n = omega (arith, doubled_grows rounds (n * 2))

text-IsInLimits : IsInLimits copying keeping 16 7 9 stack user text text 4 text
unfolding bytes_eq
text-IsInLimits = record {
  stack_size = refl;
  header_fits = user-Fits;
  short_name = omega arith;
  name_literal = IsLiteral-user;
  some_body = omega arith;
  body_size = omega arith;
  no_nul = text-IsText;
  text_literal = IsLiteral-text;
  some_text = omega arith;
  text_size = omega arith;
  not_fail = refl;
  no_block_filled = λ rounds e. omega (arith, doubled_grows rounds 10);
  enough_fuel = omega arith;
  compressed = compressed;
  compressed_size = omega arith;
}

upload-download_example :
    (stored answered : World keeping) × (message : Bytes) × (deal_message copying keeping 16 7 stack
        (request (codes "RQUPJ") text)
        kept
      ≡ done stored)
    × (deal_message copying keeping 16 9 stack (request (codes "RQDPJ") []) stored ≡ done answered)
    × (answered.sent ≡ kept.sent ++ (message ++ deli) ∷ [])
    × (parse_message message
        ≡ some
            (record { cmd = codes "RSDPJ"; format = codes "GZIP"; user_name = user; body = text }))
    × (gz_decompress copying text (length text) ≡ (z_stream_end, text))
upload-download_example =
    upload-download copying keeping 16 7 9 stack user text text (request (codes "RQUPJ") text)
      (request (codes "RQDPJ") []) kept one_connection (pool_of []) 4 text upload_parsed
      query_parsed taken keeping-KeepsTexts text-IsLossless text-IsInLimits
