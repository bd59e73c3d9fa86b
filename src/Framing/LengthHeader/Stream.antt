-- ===== src/Framing/LengthHeader/Stream.antt =====
-- How the length framing cuts a stream: chunking does not matter, and sent messages come back.
use vs2017code.Base.{
  ℕ, zero, suc, ◌+◌, ◌≤◌, ◌<◌, ◌≡◌, refl, ap, ◌∙◌, arith, Bytes, true, false, List, ◌++◌, length,
  length-append, length-drop, take, drop, get_or-append_lt, take-append_le, drop-append_le, inl,
  inr, ◌⊎◌,
}
use vs2017code.Framing.LengthHeader.{
  network_to_host32, Head, incomplete, bad_length, whole, peek, Turn, deliver, stop, message_loop,
  on_message,
}

pub Head-cases : (h : Head) → ((h ≡ incomplete) ⊎ (h ≡ bad_length)) ⊎ ((len : ℕ) × (h ≡ whole len))
Head-cases incomplete = inl (inl refl)
Head-cases bad_length = inl (inr refl)
Head-cases (whole len) = inr (len, refl)

pub peek_whole :
    (buf : Bytes) (len : ℕ) → peek buf ≡ whole len → (len + 12 ≤ length buf) × (len ≤ 65536)
unfolding peek
peek_whole buf len h = ground arith

pub peek_bad : (buf : Bytes) → peek buf ≡ bad_length → 12 ≤ length buf
unfolding peek
peek_bad buf h = ground arith

-- More input does not change what a complete head is.
network_to_host32-append :
    (buf more : Bytes)
    → 12 ≤ length buf
    → network_to_host32 (buf ++ more) 0 ≡ network_to_host32 buf 0
unfolding network_to_host32
network_to_host32-append buf more l = rw (
  get_or-append_lt buf more 0 0 (omega arith),
  get_or-append_lt buf more 1 0 (omega arith),
  get_or-append_lt buf more 2 0 (omega arith),
  get_or-append_lt buf more 3 0 (omega arith),
)

pub peek-append_whole :
    (buf more : Bytes) (len : ℕ) → peek buf ≡ whole len → peek (buf ++ more) ≡ whole len
unfolding peek
peek-append_whole buf more len h =
    let fits = peek_whole buf len h in
    ground (arith, network_to_host32-append buf more (omega arith), length-append buf more)

pub peek-append_bad : (buf more : Bytes) → peek buf ≡ bad_length → peek (buf ++ more) ≡ bad_length
unfolding peek
peek-append_bad buf more h =
    ground (arith, network_to_host32-append buf more (peek_bad buf h), length-append buf more)

-- One round at each kind of head.
message_loop_whole :
    (fuel : ℕ) (buf : Bytes) (len : ℕ)
    → peek buf ≡ whole len
    → message_loop (suc fuel) buf
      ≡ deliver (take len (drop 12 buf)) (message_loop fuel (drop len (drop 12 buf)))
unfolding message_loop
message_loop_whole fuel buf len h = rw (h, message_loop)

rest_length :
    (buf : Bytes) (len : ℕ)
    → peek buf ≡ whole len
    → length (drop len (drop 12 buf)) + len + 12 ≡ length buf
rest_length buf len h =
    let fits = peek_whole buf len h in
    omega (arith, length-drop len (drop 12 buf), length-drop 12 buf)

message_loop_enough :
    (n m : ℕ) (buf : Bytes)
    → length buf < n
    → length buf < m
    → message_loop n buf ≡ message_loop m buf
unfolding message_loop
message_loop_enough zero m buf hn hm = absurd (omega arith)
message_loop_enough (suc n) zero buf hn hm = absurd (omega arith)
message_loop_enough (suc n) (suc m) buf hn hm = elim (Head-cases (peek buf)) [
  | inl (inl h) ↦ rw (h, message_loop)
  | inl (inr h) ↦ rw (h, message_loop)
  | inr (len, h) ↦
      let l = rest_length buf len h in
      rw (h, message_loop)
        (ap (deliver (take len (drop 12 buf)))
          (message_loop_enough n m (drop len (drop 12 buf)) (omega arith) (omega arith)))
]

pub on_message_whole :
    (buf : Bytes) (len : ℕ)
    → peek buf ≡ whole len
    → on_message buf ≡ deliver (take len (drop 12 buf)) (on_message (drop len (drop 12 buf)))
unfolding on_message
on_message_whole buf len h =
    let l = rest_length buf len h in
    message_loop_whole (length buf) buf len h
    ∙ ap (deliver (take len (drop 12 buf))) (
        message_loop_enough (length buf) (suc (length (drop len (drop 12 buf))))
          (drop len (drop 12 buf)) (omega arith) (omega arith))

pub on_message_incomplete : (buf : Bytes) → peek buf ≡ incomplete → on_message buf ≡ stop false buf
unfolding on_message message_loop
on_message_incomplete buf h = rw (h, message_loop)

pub on_message_bad : (buf : Bytes) → peek buf ≡ bad_length → on_message buf ≡ stop true buf
unfolding on_message message_loop
on_message_bad buf h = rw (h, message_loop)

-- The second turn, behind the messages of the first.
abbrev then_turn : List Bytes → Turn → Turn
then_turn earlier turn = record turn { messages = earlier ++ turn.messages }

fragments :
    (n : ℕ) (a b : Bytes)
    → length a < n
    → on_message (a ++ b)
      ≡ then_turn (on_message a).messages (on_message ((on_message a).rest ++ b))
fragments zero a b hn = absurd (omega arith)
fragments (suc n) a b hn = elim (Head-cases (peek a)) [
  | inl (inl h) ↦ rw (on_message_incomplete a h)
  | inl (inr h) ↦ rw (on_message_bad a h)
  | inr (len, h) ↦
      let fits = peek_whole a len h in
      let l = rest_length a len h in
      let body : len ≤ length (drop 12 a) = omega (arith, length-drop 12 a) in
      rw (
        on_message_whole a len h,
        on_message_whole (a ++ b) len (peek-append_whole a b len h),
        drop-append_le 12 a b (omega arith),
        take-append_le len (drop 12 a) b body,
        drop-append_le len (drop 12 a) b body,
        fragments n (drop len (drop 12 a)) b (omega arith),
      )
]

-- However a stream is cut in two, the second call of `onMessage`, on what the first left and the
-- second chunk, delivers what one call on the whole stream delivers after the first chunk's
-- messages, shuts the connection down exactly if that call does, and leaves the same bytes.
pub on_message_chunks :
    (a b : Bytes)
    → let second = on_message ((on_message a).rest ++ b) in
      let once = on_message (a ++ b) in
      (once.messages ≡ (on_message a).messages ++ second.messages)
      × (once.shut_down ≡ second.shut_down)
      × (once.rest ≡ second.rest)
on_message_chunks a b =
    let e = fragments (suc (length a)) a b (omega arith) in
    (ap (λ (t : Turn). t.messages) e, ap (λ (t : Turn). t.shut_down) e, ap (λ (t : Turn). t.rest) e)
