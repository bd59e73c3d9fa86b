-- ===== src/Framing/LengthHeader/Bounds.antt =====
-- What the length check bounds, and what a bad length does to the connection.
use vs2017code.Base.{
  ℕ, zero, suc, ◌+◌, ◌≤◌, ◌<◌, ◌≡◌, arith, Bytes, true, false, [], ◌++◌, length, length-drop,
  length-take, take, drop, inl, inr, All, ◌⊎◌, Bool-cases,
}
use vs2017code.Framing.LengthHeader.{bad_length, incomplete, peek, on_message}
use vs2017code.Framing.LengthHeader.Stream.{
  Head-cases, peek_whole, peek-append_bad, on_message_whole, on_message_incomplete, on_message_bad,
}

-- An unfinished message is shorter than the longest one.
pub peek_incomplete : (buf : Bytes) → peek buf ≡ incomplete → length buf < 12 + 65536
unfolding peek
peek_incomplete buf h = ground arith

abbrev pub Bounded : Bytes → Type 0
Bounded m = length m ≤ 65536

-- The bounds of one turn on a buffer shorter than the fuel.
bounds :
    (n : ℕ) (buf : Bytes)
    → length buf < n
    → All Bounded (on_message buf).messages
      × ((on_message buf).shut_down ≡ false → length (on_message buf).rest < 12 + 65536)
      × ((on_message buf).shut_down ≡ true → peek (on_message buf).rest ≡ bad_length)
bounds zero buf hn = absurd (omega arith)
bounds (suc n) buf hn = elim (Head-cases (peek buf)) [
  | inl (inl h) ↦ rw (on_message_incomplete buf h) (tt, λ _. peek_incomplete buf h, λ e. cc)
  | inl (inr h) ↦ rw (on_message_bad buf h) (tt, λ e. cc, λ _. h)
  | inr (len, h) ↦
      let fits = peek_whole buf len h in
      let l : length (drop len (drop 12 buf)) < n =
        omega (arith, length-drop len (drop 12 buf), length-drop 12 buf) in
      let ih = bounds n (drop len (drop 12 buf)) l in
      let body : length (take len (drop 12 buf)) ≤ 65536 =
        omega (arith, length-take len (drop 12 buf)) in
      rw (on_message_whole buf len h) ((body, ih.0), ih.1, ih.2)
]

-- Whatever bytes arrive, each message that a call of `onMessage` delivers has at most 65536 bytes,
-- and the call shuts the connection down or leaves fewer than 12 + 65536 bytes buffered.
pub on_message_bounds :
    (buf : Bytes)
    → All Bounded (on_message buf).messages
      × (((on_message buf).shut_down ≡ true) ⊎ (length (on_message buf).rest < 12 + 65536))
on_message_bounds buf =
    let b = bounds (suc (length buf)) buf (omega arith) in
    (b.0, elim (Bool-cases (on_message buf).shut_down) [ inl h ↦ inl h | inr h ↦ inr (b.1 h) ])

-- Once a bad length has shut the connection down, no later bytes are ever delivered: each further
-- call keeps all of the buffer, delivers nothing and shuts the connection down again.
pub on_message_after_bad_length :
    (buf more : Bytes)
    → (on_message buf).shut_down ≡ true
    → on_message ((on_message buf).rest ++ more)
      ≡ record { messages = []; shut_down = true; rest = (on_message buf).rest ++ more }
on_message_after_bad_length buf more h =
    let bad = (bounds (suc (length buf)) buf (omega arith)).2 h in
    on_message_bad _ (peek-append_bad (on_message buf).rest more bad)
