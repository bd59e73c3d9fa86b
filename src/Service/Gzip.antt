-- ===== src/Service/Gzip.antt =====
-- gzCompress and gzDecompress of Deli_time_server/Deli_time_server/gzip.cc. zlib is the parameter
-- `Zlib`: its codes are the `int`s that it returns, and a stream's internal state is left abstract.
pub mod Termination
pub mod RoundTrip
use vs2017code.Base.{
  ℕ, zero, suc, ◌-◌, Bytes, Bool, true, false, ◌&&◌, List, [], ◌∷◌, ◌++◌, Option, none, some, ltb,
  if◌then◌else◌, length, ℤ, pos, negsuc, int_eq,
}
use vs2017code.Service.Result.{Result, done, undefined, unfinished, ◌>>=◌}

abbrev pub z_ok : ℤ
z_ok = pos 0

abbrev pub z_stream_end : ℤ
z_stream_end = pos 1

abbrev pub z_buf_error : ℤ
z_buf_error = negsuc 4

-- `deflate` and `inflate` get a state, the input from `next_in` on and `avail_out`; `deflate` gives
-- its code, the next state, the input that is left and the bytes that it wrote. Its `Bool` is true
-- for Z_FINISH and false for Z_NO_FLUSH. `inflate`, always with Z_FINISH, gives its code and the bytes.
pub record Zlib : Type 1 where
  pub State : Type 0
  pub deflate_init : ℤ × State
  pub deflate : Bool → State → Bytes → ℕ → ℤ × State × Bytes × Bytes
  pub deflate_end : State → ℤ
  pub inflate_init : ℤ × State
  pub inflate : State → Bytes → ℕ → ℤ × Bytes

module _ (z : Zlib) where
  -- A z_stream, the destination's size and what is written to it; `total_out` is the length of that.
  pub record Stream : Type 0 where
    pub state : z.State
    pub next_in : Bytes
    pub dest_len : ℕ
    pub written : Bytes

  -- One call of `deflate`, with `avail_out` what the destination has left.
  unfoldable pub call_deflate : Bool → Stream → ℤ × Stream
  call_deflate finish s =
      let (code, state, rest, output) =
        z.deflate finish s.state s.next_in (s.dest_len - length s.written) in
      (code, record s { state = state; next_in = rest; written = s.written ++ output })

  unfoldable pub is_empty : Bytes → Bool
  is_empty [] = true
  is_empty (c ∷ s) = false

  -- The first loop; `none` is `return -1`.
  unfoldable pub feed_loop : ℕ → Stream → Result (Option Stream)
  unfolding call_deflate is_empty
  feed_loop zero s = unfinished
  feed_loop (suc fuel) s =
      let (code, next) = call_deflate false s in
      let rest = feed_loop fuel next in
      if is_empty s.next_in
      then done (some s)
      else (if ltb (length s.written) s.dest_len
          then (if int_eq code z_ok then rest else done none)
          else done (some s))

  -- The second loop.
  unfoldable pub finish_loop : ℕ → Stream → Result (Option Stream)
  unfolding call_deflate
  finish_loop zero s = unfinished
  finish_loop (suc fuel) s =
      let (code, next) = call_deflate true s in
      let rest = finish_loop fuel next in
      if int_eq code z_stream_end
      then done (some next)
      else (if int_eq code z_ok then rest else done none)

  -- After the first loop, and after the second: the `int` that is returned, and the destination.
  unfoldable pub end_compress : Option Stream → Result (ℤ × Bytes)
  end_compress none = done (negsuc 0, [])
  end_compress (some s) =
      if int_eq (z.deflate_end s.state) z_ok
      then done (pos (length s.written), s.written)
      else done (negsuc 0, [])

  unfoldable pub finish_compress : ℕ → Option Stream → Result (ℤ × Bytes)
  unfolding end_compress finish_loop is_empty
  finish_compress fuel none = done (negsuc 0, [])
  finish_compress fuel (some s) =
      if is_empty s.next_in
      then finish_loop fuel s >>= end_compress
      else done (pos (length s.next_in), s.written)

  abbrev pub start_stream : Bytes → ℕ → Stream
  start_stream src dest_len = record {
    state = z.deflate_init.1;
    next_in = src;
    dest_len = dest_len;
    written = [];
  }

  -- gzCompress: its return value, and the bytes written to `dest`, left out when it returns -1.
  unfoldable pub gz_compress : ℕ → Bytes → ℕ → Result (ℤ × Bytes)
  unfolding feed_loop finish_compress is_empty
  gz_compress fuel src dest_len =
      if is_empty src
      then done (negsuc 0, [])
      else (if int_eq z.deflate_init.0 z_ok
          then feed_loop fuel (start_stream src dest_len) >>= finish_compress fuel
          else done (negsuc 0, []))

  -- gzDecompress: the code of `inflate`, and what it wrote to `dst`.
  unfoldable pub gz_decompress : Bytes → ℕ → ℤ × Bytes
  gz_decompress src dst_len =
      if int_eq z.inflate_init.0 z_ok
      then z.inflate z.inflate_init.1 src dst_len
      else (z.inflate_init.0, [])
