-- ===== src/Service/Deal/Unpack.antt =====
-- The loop that decompresses an upload: each round doubles the destination.
use vs2017code.Base.{
  int_eq, ℕ, zero, suc, ◌+◌, ◌-◌, ◌*◌, ◌^◌, ◌≤◌, ◌<◌, ◌≡◌, ◌⊎◌, inl, inr, refl, arith, Bytes, true,
  false, [], ◌∷◌, ◌++◌, leb, length, ◌==◌,
}
use native.Mathlib.Decide.{dec_lt}
use vs2017code.Framing.Header.Memory.{IsText}
use vs2017code.Service.Result.{done, undefined, unfinished}
use vs2017code.Service.Gzip.{Zlib, gz_decompress, z_ok, z_buf_error, z_stream_end}
use vs2017code.Service.Deal.{zeros, block, string_of, double, unpack_loop, unpack}

-- What zlib documents of `inflate` with Z_FINISH on a complete stream of a text: Z_BUF_ERROR while
-- the room is too small, and then Z_STREAM_END and the text.
pub record IsInflated (z : Zlib) (source text : Bytes) : Type 0 where
  pub init_ok : int_eq z.inflate_init.0 z_ok ≡ true
  pub too_small :
      (room : ℕ)
      → room < length text
      → int_eq (z.inflate z.inflate_init.1 source room).0 z_buf_error ≡ true
  pub fits :
      (room : ℕ)
      → length text ≤ room
      → z.inflate z.inflate_init.1 source room ≡ (z_stream_end, text)

pub double-done : (n : ℕ) → n * 2 < 2 ^ 31 → double n ≡ done (n * 2)
unfolding double
double-done n l = let fits : leb (2 ^ 31) (n * 2) ≡ false = ground arith in rw (fits) refl

-- A block that a text does not fill is read back as the text.
pub string_of-block :
    (room : ℕ) (text : Bytes) → IsText text → 0 < room → string_of (text ++ zeros room) ≡ done text
unfolding string_of
string_of-block zero [] h l = absurd (omega arith)
string_of-block (suc room) [] h l = refl
string_of-block room (c ∷ text) h l =
    let (not_nul, _) = h in
    let no_nul : (c == 0) ≡ false = ground arith in
    rw (string_of-block room text h.1 l, no_nul) refl

-- A text that fills its block has no NUL behind it.
pub string_of_full : (text : Bytes) → IsText text → string_of (text ++ []) ≡ undefined
unfolding string_of
string_of_full [] h = refl
string_of_full (c ∷ text) h =
    let (not_nul, _) = h in
    let no_nul : (c == 0) ≡ false = ground arith in rw (string_of_full text h.1, no_nul) refl

-- A size after some rounds of the loop.
unfoldable pub doubled : ℕ → ℕ → ℕ
doubled zero n = n
doubled (suc rounds) n = doubled rounds (n * 2)

module _ (z : Zlib) (source text : Bytes) (inflated : IsInflated z source text) where
  -- The loop ends with the text at the start of a block that holds it.
  unpack_loop_ends :
      (fuel dest_len : ℕ)
      → 0 < fuel
      → 0 < dest_len
      → length text < dest_len + fuel
      → length text * 2 < 2 ^ 31
      → (rounds : ℕ) × (length text ≤ doubled rounds dest_len)
        × (unpack_loop z fuel source dest_len ≡ done (block (doubled rounds dest_len) text))
  unfolding unpack_loop gz_decompress doubled
  unpack_loop_ends zero dest_len some_fuel pos enough small = absurd (omega arith)
  unpack_loop_ends (suc fuel) dest_len some_fuel pos enough small =
      elim (dec_lt dest_len (length text)) [
        | no fits ↦
            rw (inflated.init_ok, inflated.fits dest_len (omega arith)) (0, omega arith, refl)
        | yes small_room ↦
            let (rounds, l, e) =
              unpack_loop_ends fuel (dest_len * 2) (omega arith) (omega arith) (omega arith)
                small in
            rw
              (
                inflated.init_ok,
                inflated.too_small dest_len small_room,
                double-done dest_len (omega arith),
              )
              (suc rounds, l, e)
      ]

  -- For the body of a stream that inflates to a text below 2^30 bytes, the loop of an upload ends,
  -- and the handler goes on with exactly that text, unless the text is as long as one of the blocks,
  -- whose sizes are the body's times a power of 2 above 1: then it reads past the block's end.
  pub unpack_lem :
      (fuel : ℕ)
      → 0 < length source
      → length source * 2 < 2 ^ 31
      → IsText text
      → length text * 2 < 2 ^ 31
      → length text < fuel
      → (unpack z fuel source ≡ done text)
        ⊎ ((rounds : ℕ) × (length text ≡ doubled rounds (length source * 2))
            × (unpack z fuel source ≡ undefined))
  unfolding unpack
  unpack_lem fuel some_source size nul_free small enough =
      let (rounds, l, e) =
        unpack_loop_ends fuel (length source * 2) (omega arith) (omega arith) (omega arith) small in
      elim (dec_lt (length text) (doubled rounds (length source * 2))) [
        | yes shorter ↦
            rw (double-done (length source) size, e)
              (inl (
                string_of-block (doubled rounds (length source * 2) - length text) text nul_free
                  (omega arith)))
        | no exact ↦
            let same : length text ≡ doubled rounds (length source * 2) = omega arith in
            let none_left : doubled rounds (length source * 2) - length text ≡ 0 = omega arith in
            rw (double-done (length source) size, e, none_left)
              (inr (rounds, same, string_of_full text nul_free))
      ]

-- The first round ends the loop for any other code than Z_BUF_ERROR.
pub unpack_ended :
    (z : Zlib) (source : Bytes) (fuel : ℕ)
    → 0 < fuel
    → length source * 2 < 2 ^ 31
    → int_eq (gz_decompress z source (length source * 2)).0 z_buf_error ≡ false
    → IsText (gz_decompress z source (length source * 2)).1
    → length (gz_decompress z source (length source * 2)).1 < length source * 2
    → unpack z fuel source ≡ done (gz_decompress z source (length source * 2)).1
unfolding unpack unpack_loop
unpack_ended z source zero some_fuel size ended nul_free shorter = absurd (omega arith)
unpack_ended z source (suc fuel) some_fuel size ended nul_free shorter =
    let written : Bytes = (gz_decompress z source (length source * 2)).1 in
    rw (double-done (length source) size, ended)
      (string_of-block (length source * 2 - length written) written nul_free
        (omega (arith, shorter)))

-- An upload without a body never ends: for a decompressor that returns Z_BUF_ERROR when it gets no
-- room, as inflate does, the block stays empty round after round.
pub unpack_empty :
    (z : Zlib) (fuel : ℕ)
    → int_eq (gz_decompress z [] 0).0 z_buf_error ≡ true
    → unpack z fuel [] ≡ unfinished
unfolding unpack double unpack_loop
unpack_empty z fuel h = rw (loop fuel) refl
  where
    loop : (fuel : ℕ) → unpack_loop z fuel [] 0 ≡ unfinished
    loop zero = refl
    loop (suc fuel) = rw (h, loop fuel) refl
