-- ===== src/Tests/Copying.antt =====
-- A compressor for the tests that copies its input, and does not decompress an empty stream.
use vs2017code.Base.{
  int_eq, ℕ, zero, suc, ◌-◌, ◌≤◌, ◌<◌, ◌≡◌, refl, sym, ap, ◌∙◌, arith, Bytes, Bool, true, [], ◌∷◌,
  ◌++◌, append_assoc, leb, length, length-take, length-drop, take, drop, if◌then◌else◌, ◌&&◌, ltb,
}
use mathlib.Core.Path.{subst}
use vs2017code.Framing.Header.Memory.{take-append-drop}
use vs2017code.Service.Gzip.{Zlib, Stream, call_deflate, z_ok, z_buf_error, z_stream_end}
use vs2017code.Service.Gzip.Termination.{IsProgressing}
use vs2017code.Service.Gzip.RoundTrip.{Reaches, begun, fed, taken, finishing, IsDeflated}
use vs2017code.Service.Deal.Unpack.{IsInflated}

abbrev pub copying : Zlib
copying = record {
  State = Unit;
  deflate_init = (z_ok, tt);
  deflate = λ finish state input room. (
    if ltb 0 (length input) && ltb 0 room
        then z_ok
        else (if finish && leb (length input) 0 then z_stream_end else z_buf_error),
    state,
    drop room input,
    take room input,
  );
  deflate_end = λ state. z_ok;
  inflate_init = (z_ok, tt);
  inflate = λ state source room. (
    if ltb 0 (length source) && leb (length source) room then z_stream_end else z_buf_error,
    take room source,
  );
}

pub copying_progresses : IsProgressing copying
copying_progresses = record {
  output_fits = λ finish state input room. omega (arith, length-take room input);
  input_shrinks = λ finish state input room. omega (arith, length-drop room input);
  ok_advances =
      λ finish state input room h. ground (arith, length-drop room input, length-take room input);
}

copied :
    (n : ℕ) (s : Stream copying)
    → (s.written ++ take n s.next_in) ++ drop n s.next_in ≡ s.written ++ s.next_in
copied n s =
    append_assoc s.written (take n s.next_in) (drop n s.next_in)
    ∙ ap (λ t. s.written ++ t) (take-append-drop n s.next_in)

nothing_left :
    (n : ℕ) (written rest : Bytes) → length rest ≡ 0 → written ++ take n rest ≡ written ++ rest
nothing_left zero written [] h = refl
nothing_left (suc n) written [] h = refl
nothing_left n written (c ∷ rest) h = absurd (omega arith)

ended_empty :
    (s : Stream copying)
    → int_eq (call_deflate copying true s).0 z_stream_end ≡ true
    → length s.next_in ≡ 0
unfolding call_deflate
ended_empty s h = ground (arith)

take_all : (n : ℕ) (s : Bytes) → length s ≤ n → take n s ≡ s
take_all zero [] h = refl
take_all zero (c ∷ s) h = absurd (omega arith)
take_all (suc n) [] h = refl
take_all (suc n) (c ∷ s) h = ap (◌∷◌ c) (take_all n s (omega arith))

-- What is written and what is left is the source.
written-next_in :
    (src : Bytes) {n : ℕ} {b : Bool} {s : Stream copying}
    → Reaches copying src n b s
    → s.written ++ s.next_in ≡ src
unfolding call_deflate
written-next_in src (begun h) = refl
written-next_in src (fed {s = s} r h) =
    copied (s.dest_len - length s.written) s ∙ written-next_in src r
written-next_in src (taken r h) = written-next_in src r
written-next_in src (finishing {s = s} r h) =
    copied (s.dest_len - length s.written) s ∙ written-next_in src r

pub copying_inflates : (src : Bytes) → 0 < length src → IsInflated copying src src
copying_inflates src some_src = record {
  init_ok = refl;
  too_small = λ room h. ground arith;
  fits = λ room h.
      let whole : (ltb 0 (length src) && leb (length src) room) ≡ true = ground arith in
      rw (whole, take_all room src h) refl;
}

pub copying_lossless :
    (src : Bytes)
    → 0 < length src
    → (out : Bytes) → IsDeflated copying src out
    → IsInflated copying out src
unfolding call_deflate
copying_lossless src some_src out d =
    subst (λ s. IsInflated copying s src) (sym same) (copying_inflates src some_src)
  where
    same : out ≡ src
    same =
        d.output
        ∙ nothing_left (d.last.dest_len - length d.last.written) d.last.written d.last.next_in
            (ended_empty d.last d.ended)
        ∙ written-next_in src d.reached
