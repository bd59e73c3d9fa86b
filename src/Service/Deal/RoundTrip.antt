-- ===== src/Service/Deal/RoundTrip.antt =====
-- An upload and then a query of the same user.
use vs2017code.Base.{
  ℕ, ◌*◌, ◌^◌, ◌≤◌, ◌<◌, ◌≡◌, ◌≢◌, inl, inr, refl, ap, arith, false, Bytes, List, ◌∷◌, [], ◌++◌,
  some, length, codes, bytes_eq, pos, suc,
}
use vs2017code.Framing.Delimiter.{deli}
use vs2017code.Framing.Header.{parse_message}
use vs2017code.Framing.Header.Memory.{IsText}
use vs2017code.Framing.Header.RoundTrip.{Fits}
use vs2017code.Dblayer.Platform.{Platform}
use vs2017code.Pool.{Pool, Connection, get_one_connect, give_back}
use vs2017code.Service.Result.{done}
use vs2017code.Service.Gzip.{Zlib, gz_compress, gz_decompress, z_stream_end}
use vs2017code.Service.Gzip.RoundTrip.{IsDeflated}
use vs2017code.Service.Database.{mysql_insert}
use vs2017code.Service.Database.Keeping.{IsLiteral, KeepsTexts, mysql_insert-found}
use vs2017code.Service.Deal.{World, deal_message}
use vs2017code.Service.Deal.Unpack.{IsInflated, doubled}
use vs2017code.Service.Deal.Upload.{upload_outcome}
use vs2017code.Service.Deal.Download.{download_lem}

-- A pool to which a connection has come back has one to give.
give_back-get_one_connect :
    (now : ℕ) (c : Connection) (pool : Pool)
    → (front : Connection) × (rest : Pool) × (get_one_connect (give_back now c pool)
        ≡ (some front, rest))
unfolding get_one_connect give_back
give_back-get_one_connect now c pool = go pool.queue refl
  where
    go :
        (queue : List Connection)
        → pool.queue ≡ queue
        → (front : Connection) × (rest : Pool) × (get_one_connect (give_back now c pool)
            ≡ (some front, rest))
    go [] e =
        let back : Connection = record c { alive_time = now } in
        (back, record pool { queue = [] }, ground (arith, ap (λ q. q ++ back ∷ []) e))
    go (d ∷ queue) e =
        let back : Connection = record c { alive_time = now } in
        (d, record pool { queue = queue ++ back ∷ [] }, ground (arith, ap (λ q. q ++ back ∷ []) e))

module _ (z : Zlib) (p : Platform) (fuel now later : ℕ) (stack user_name body text : Bytes) where
  -- What zlib is documented to do with this upload: the body is a complete stream of the text, and any
  -- complete stream of the text inflates to it.
  pub record IsLossless : Type 0 where
    pub body_inflates : IsInflated z body text
    pub streams_inflate : (s : Bytes) → IsDeflated z text s → IsInflated z s text

  -- The user's name and the text as the statements and the headers take them, their sizes, and what
  -- gzCompress returns for the text: a count above 0, and fewer bytes than twice the text's.
  pub record IsInLimits (count : ℕ) (out : Bytes) : Type 0 where
    pub stack_size : length stack ≡ 44
    pub header_fits : Fits (codes "RSDPJ") (codes "GZIP") user_name
    pub short_name : length user_name ≤ 12
    pub name_literal : IsLiteral 34 user_name
    pub some_body : 0 < length body
    pub body_size : length body * 2 < 2 ^ 31
    pub no_nul : IsText text
    pub text_literal : IsLiteral 39 text
    pub some_text : 0 < length text
    pub text_size : length text * 2 < 2 ^ 31
    pub not_fail : bytes_eq text (codes "FAIL") ≡ false
    pub no_block_filled : (rounds : ℕ) → length text ≢ doubled rounds (length body * 2)
    pub enough_fuel : length text < fuel
    pub compressed : gz_compress z fuel text (length text * 2) ≡ done (pos (suc count), out)
    pub compressed_size : length out < length text * 2

  -- An upload and then a query of the same user, over a server that keeps texts and a lossless zlib:
  -- both handlers return, and the one answer that is sent is, for a receiver that takes it apart and
  -- decompresses its body, the text of the upload. The pool has a connection for the upload; the name
  -- has 1 to 12 bytes, no NUL, double quote or backslash; the text has no NUL, single quote or
  -- backslash, is not empty and not FAIL, and is as long as no block of the decompression; text and
  -- compressed body have some bytes and less than 2^30; gzCompress of the text returns a count above 0
  -- and does not fill its destination; the fuel is more than the length of the text.
  pub upload-download :
      (upload query : Bytes) (world : World p) (c : Connection) (pool : Pool) (count : ℕ)
      (out : Bytes)
      → parse_message upload
        ≡ some (record {
          cmd = codes "RQUPJ";
          format = codes "GZIP";
          user_name = user_name;
          body = body;
        })
      → parse_message query
        ≡ some (record {
          cmd = codes "RQDPJ";
          format = codes "GZIP";
          user_name = user_name;
          body = [];
        })
      → get_one_connect world.pool ≡ (some c, pool)
      → KeepsTexts p
      → IsLossless
      → IsInLimits count out
      → (stored answered : World p) × (message : Bytes) × (deal_message z p fuel now stack upload
            world
          ≡ done stored)
        × (deal_message z p fuel later stack query stored ≡ done answered)
        × (answered.sent ≡ world.sent ++ (message ++ deli) ∷ [])
        × (parse_message message
            ≡ some (record {
              cmd = codes "RSDPJ";
              format = codes "GZIP";
              user_name = user_name;
              body = out;
            }))
        × (gz_decompress z out (length text) ≡ (z_stream_end, text))
  upload-download upload query world c pool count out uploaded queried lent keeps lossless limits =
      elim (upload_outcome z p fuel now stack upload user_name body world c pool text uploaded lent
        lossless.body_inflates limits.some_body limits.body_size limits.no_nul limits.text_size
        limits.enough_fuel) [
          | inr (rounds, same, _) ↦ absurd (limits.no_block_filled rounds same)
          | inl stored ↦
              let after : World p = record world {
                server = mysql_insert p user_name text world.server;
                pool = give_back now c pool;
              } in
              let (front, rest, lent_again) = give_back-get_one_connect now c pool in
              let (fields, server, found) =
                mysql_insert-found keeps world.server user_name text limits.name_literal
                  limits.text_literal limits.header_fits.user_text in
              let (message, answered, parsed, unpacked) =
                download_lem z p fuel later stack query (codes "GZIP") user_name [] after front rest
                  server fields [] [] text out count queried lent_again found limits.stack_size
                  limits.header_fits limits.short_name limits.no_nul limits.some_text
                  limits.not_fail limits.text_size limits.compressed limits.compressed_size
                  lossless.streams_inflate in
              (after, _, message, stored, answered, refl, parsed, unpacked)
        ]
