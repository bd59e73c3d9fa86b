-- ===== src/Service/Deal/Upload.antt =====
-- What an upload does to the server and the pool.
use vs2017code.Base.{
  int_eq, ℕ, ◌*◌, ◌^◌, ◌<◌, ◌≡◌, ◌⊎◌, inl, inr, refl, ◌∙◌, true, false, Bytes, [], some, length,
  codes, bytes_eq,
}
use vs2017code.Framing.Header.{parse_message}
use vs2017code.Framing.Header.Memory.{IsText}
use vs2017code.Dblayer.Platform.{Platform}
use vs2017code.Pool.{Pool, Connection, get_one_connect, give_back}
use vs2017code.Service.Result.{done, undefined, unfinished}
use vs2017code.Service.Gzip.{Zlib, gz_decompress, z_buf_error}
use vs2017code.Service.Database.{mysql_insert}
use vs2017code.Service.Deal.{World, deal_message, deal_request, deal_upload, store}
use vs2017code.Service.Deal.Unpack.{IsInflated, doubled, unpack_lem, unpack_empty, unpack_ended}

module _ (z : Zlib) (p : Platform) (fuel now : ℕ) (stack msg user_name body : Bytes)
    (world : World p) where
  -- A message with the command RQUPJ and the format GZIP is an upload.
  deal_message-deal_upload :
      parse_message msg
        ≡ some (record {
          cmd = codes "RQUPJ";
          format = codes "GZIP";
          user_name = user_name;
          body = body;
        })
      → deal_message z p fuel now stack msg world ≡ deal_upload z p fuel now user_name body world
  unfolding deal_message deal_request bytes_eq
  deal_message-deal_upload e = rw (deal_message, e) refl

  -- If the body of an upload is a compressed text below 2^30 bytes and the pool has a connection,
  -- then the statement that stores this text for the user is sent and the connection goes back,
  -- unless the text is as long as one of the blocks, whose sizes are the body's times a power of 2
  -- above 1: then the handler reads past the end of the block.
  pub upload_outcome :
      (c : Connection) (pool : Pool) (text : Bytes)
      → parse_message msg
        ≡ some (record {
          cmd = codes "RQUPJ";
          format = codes "GZIP";
          user_name = user_name;
          body = body;
        })
      → get_one_connect world.pool ≡ (some c, pool)
      → IsInflated z body text
      → 0 < length body
      → length body * 2 < 2 ^ 31
      → IsText text
      → length text * 2 < 2 ^ 31
      → length text < fuel
      → (deal_message z p fuel now stack msg world
          ≡ done (record world {
            server = mysql_insert p user_name text world.server;
            pool = give_back now c pool;
          }))
        ⊎ ((rounds : ℕ) × (length text ≡ doubled rounds (length body * 2))
            × (deal_message z p fuel now stack msg world ≡ undefined))
  unfolding deal_upload store
  upload_outcome c queue text e lent inflated some_body size nul_free small enough =
      elim (unpack_lem z body text inflated fuel some_body size nul_free small enough) [
        | inl stored ↦ inl (deal_message-deal_upload e ∙ rw (stored, lent) refl)
        | inr (rounds, same, full) ↦ inr (rounds, same, deal_message-deal_upload e ∙ rw (full) refl)
      ]

  -- An upload whose message ends with its header is never done, however long its loop runs, for a
  -- decompressor that returns Z_BUF_ERROR when it gets no room.
  pub upload_empty :
      parse_message msg
        ≡ some (record {
          cmd = codes "RQUPJ";
          format = codes "GZIP";
          user_name = user_name;
          body = [];
        })
      → int_eq (gz_decompress z [] 0).0 z_buf_error ≡ true
      → deal_message z p fuel now stack msg world ≡ unfinished
  unfolding deal_message deal_request bytes_eq deal_upload
  upload_empty e no_room = rw (deal_message, e, unpack_empty z fuel no_room) refl

  -- An upload that does not decompress is stored all the same: for every code of gzDecompress but
  -- Z_BUF_ERROR, errors included, the statement for the user is sent, with the text written so far.
  pub upload_broken :
      (c : Connection) (pool : Pool)
      → parse_message msg
        ≡ some (record {
          cmd = codes "RQUPJ";
          format = codes "GZIP";
          user_name = user_name;
          body = body;
        })
      → get_one_connect world.pool ≡ (some c, pool)
      → 0 < fuel
      → length body * 2 < 2 ^ 31
      → int_eq (gz_decompress z body (length body * 2)).0 z_buf_error ≡ false
      → IsText (gz_decompress z body (length body * 2)).1
      → length (gz_decompress z body (length body * 2)).1 < length body * 2
      → deal_message z p fuel now stack msg world
        ≡ done (record world {
          server = mysql_insert p user_name (gz_decompress z body (length body * 2)).1 world.server;
          pool = give_back now c pool;
        })
  unfolding deal_upload store
  upload_broken c pool e lent some_fuel size ended nul_free shorter =
      deal_message-deal_upload e
      ∙ rw (unpack_ended z body fuel some_fuel size ended nul_free shorter, lent) refl
