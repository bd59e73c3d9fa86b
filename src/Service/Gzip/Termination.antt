-- ===== src/Service/Gzip/Termination.antt =====
-- gzCompress ends: each call of `deflate` that returns Z_OK makes progress.
use vs2017code.Base.{
  int_eq, ℕ, zero, suc, ◌+◌, ◌-◌, ◌≤◌, ◌<◌, ◌≡◌, inl, inr, refl, arith, Bytes, Bool, true, false,
  Option, none, some, [], length, length-append, ltb, Bool-cases, ℤ, pos, negsuc,
}
use vs2017code.Service.Result.{Result, done, done}
use vs2017code.Service.Gzip.{
  Zlib, Stream, call_deflate, is_empty, feed_loop, finish_loop, end_compress, finish_compress,
  start_stream, gz_compress, z_ok, z_stream_end,
}

-- What zlib documents of `deflate`: it writes at most `avail_out` bytes, gives no input back, and
-- returns Z_OK only if it took some input or wrote some output.
pub record IsProgressing (z : Zlib) : Type 0 where
  pub output_fits :
      (finish : Bool) (state : z.State) (input : Bytes) (room : ℕ)
      → length (z.deflate finish state input room).3 ≤ room
  pub input_shrinks :
      (finish : Bool) (state : z.State) (input : Bytes) (room : ℕ)
      → length (z.deflate finish state input room).2 ≤ length input
  pub ok_advances :
      (finish : Bool) (state : z.State) (input : Bytes) (room : ℕ)
      → int_eq (z.deflate finish state input room).0 z_ok ≡ true
      → length (z.deflate finish state input room).2
          + (room - length (z.deflate finish state input room).3)
        < length input + room

module _ (z : Zlib) (zlib_progresses : IsProgressing z) where
  -- The input that is left and the room that is left.
  abbrev work : Stream z → ℕ
  work s = length s.next_in + (s.dest_len - length s.written)

  abbrev WorkWithin : ℕ → Option (Stream z) → Type 0
  WorkWithin n none = Unit
  WorkWithin n (some s) = work s ≤ n

  abbrev Ends : ℕ → Result (Option (Stream z)) → Type 0
  Ends n result = (r : Option (Stream z)) × ((result ≡ done r) × WorkWithin n r)

  call_deflate_advances :
      (finish : Bool) (s : Stream z)
      → int_eq (call_deflate z finish s).0 z_ok ≡ true
      → work (call_deflate z finish s).1 < work s
  unfolding call_deflate
  call_deflate_advances finish s h =
      let room : ℕ = s.dest_len - length s.written in
      omega (
        arith,
        zlib_progresses.ok_advances finish s.state s.next_in room h,
        zlib_progresses.output_fits finish s.state s.next_in room,
        length-append s.written (z.deflate finish s.state s.next_in room).3,
      )

  WorkWithin-mono : (n m : ℕ) (r : Option (Stream z)) → n ≤ m → WorkWithin n r → WorkWithin m r
  WorkWithin-mono n m none l h = tt
  WorkWithin-mono n m (some s) l h = omega (arith, h)

  feed_loop-Ends : (fuel : ℕ) (s : Stream z) → work s < fuel → Ends (work s) (feed_loop z fuel s)
  unfolding feed_loop
  feed_loop-Ends zero s l = absurd (omega arith)
  feed_loop-Ends (suc fuel) s l =
      let next : Stream z = (call_deflate z false s).1 in
      elim (Bool-cases (is_empty z s.next_in)) [
        | inl h ↦ rw (h) (some s, (refl, omega arith))
        | inr h ↦ elim (Bool-cases (ltb (length s.written) s.dest_len)) [
          | inr full ↦ rw (h, full) (some s, (refl, omega arith))
          | inl room ↦ elim (Bool-cases (int_eq (call_deflate z false s).0 z_ok)) [
            | inr failed ↦ rw (h, room, failed) (none, (refl, tt))
            | inl ok ↦
                let less = call_deflate_advances false s ok in
                let (r, (e, w)) = feed_loop-Ends fuel next (omega (arith, less)) in
                rw (h, room, ok)
                  (r, (e, WorkWithin-mono (work next) (work s) r (omega (arith, less)) w))
          ]
        ]
      ]

  finish_loop_ends :
      (fuel : ℕ) (s : Stream z)
      → work s < fuel
      → (r : Option (Stream z)) × (finish_loop z fuel s ≡ done r)
  unfolding finish_loop
  finish_loop_ends zero s l = absurd (omega arith)
  finish_loop_ends (suc fuel) s l =
      let next : Stream z = (call_deflate z true s).1 in
      elim (Bool-cases (int_eq (call_deflate z true s).0 z_stream_end)) [
        | inl h ↦ rw (h) (some next, refl)
        | inr h ↦ elim (Bool-cases (int_eq (call_deflate z true s).0 z_ok)) [
          | inr failed ↦ rw (h, failed) (none, refl)
          | inl ok ↦
              let less = call_deflate_advances true s ok in
              let (r, e) = finish_loop_ends fuel next (omega (arith, less)) in rw (h, ok) (r, e)
        ]
      ]

  end_compress_ends :
      (r : Option (Stream z)) → (result : ℤ × Bytes) × (end_compress z r ≡ done result)
  unfolding end_compress
  end_compress_ends none = ((negsuc 0, []), refl)
  end_compress_ends (some s) = elim (Bool-cases (int_eq (z.deflate_end s.state) z_ok)) [
    | inl h ↦ rw (h) ((pos (length s.written), s.written), refl)
    | inr h ↦ rw (h) ((negsuc 0, []), refl)
  ]

  finish_compress_ends :
      (fuel n : ℕ) (r : Option (Stream z))
      → n < fuel
      → WorkWithin n r
      → (result : ℤ × Bytes) × (finish_compress z fuel r ≡ done result)
  unfolding finish_compress
  finish_compress_ends fuel n none l w = ((negsuc 0, []), refl)
  finish_compress_ends fuel n (some s) l w = elim (Bool-cases (is_empty z s.next_in)) [
    | inr h ↦ rw (h) ((pos (length s.next_in), s.written), refl)
    | inl h ↦
        let (r, e) = finish_loop_ends fuel s (omega (arith, w)) in
        let (result, e') = end_compress_ends r in rw (h, e) (result, e')
  ]

  -- If each call of deflate that returns Z_OK takes input or writes output, and none writes more
  -- than `avail_out` or gives input back, then gzCompress returns, whatever the source and the size
  -- of the destination: both its loops end within srcLen + destLen rounds.
  pub gz_compress_returns :
      (fuel : ℕ) (src : Bytes) (dest_len : ℕ)
      → length src + dest_len < fuel
      → (result : ℤ × Bytes) × (gz_compress z fuel src dest_len ≡ done result)
  unfolding gz_compress
  gz_compress_returns fuel src dest_len l = elim (Bool-cases (is_empty z src)) [
    | inl h ↦ rw (h) ((negsuc 0, []), refl)
    | inr h ↦ elim (Bool-cases (int_eq z.deflate_init.0 z_ok)) [
      | inr failed ↦ rw (h, failed) ((negsuc 0, []), refl)
      | inl ok ↦
          let start : Stream z = start_stream z src dest_len in
          let (r, (e, w)) = feed_loop-Ends fuel start (omega (arith, l)) in
          let (result, e') = finish_compress_ends fuel (work start) r (omega (arith, l)) w in
          rw (h, ok, e) (result, e')
    ]
  ]
