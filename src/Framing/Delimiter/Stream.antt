-- ===== src/Framing/Delimiter/Stream.antt =====
-- How `onMessage` cuts a byte stream: the fuel is enough, the chunks in which the stream arrives
-- do not matter, and framed messages come back.
use vs2017code.Base.{
  ℕ, zero, suc, ◌+◌, ◌^◌, ◌≤◌, ◌<◌, ◌≡◌, refl, sym, ap, ◌∙◌, arith, Bytes, true, List, [], ◌∷◌,
  ◌++◌, append_assoc, none, some, length, length-append, length-drop, take, drop, take-append_le,
  drop-append_le, take-append_length, drop-append_length, Bool-cases, Option-cases, inl, inr, leb,
  All,
}
use mathlib.Core.Path.{ap₂}
use vs2017code.Framing.Delimiter.{deli, find, Turn, deliver, stop, message_loop, on_message}
use vs2017code.Framing.Delimiter.Search.{
  find-length, find-append, find-deli, delimiter_position_found, delimiter_position_missing,
}

-- One round that finds a delimiter.
message_loop_found :
    (fuel : ℕ) (buf : Bytes) (p : ℕ)
    → length buf < 2 ^ 31
    → find deli buf ≡ some p
    → message_loop (suc fuel) buf ≡ deliver (take p buf) (message_loop fuel (drop (p + 4) buf))
unfolding message_loop
message_loop_found fuel buf p l h =
    let long : leb 4 (length buf) ≡ true = ground (arith, find-length deli buf p h) in
    rw (long, delimiter_position_found buf p l h, message_loop)

message_loop_missing :
    (fuel : ℕ) (buf : Bytes) → find deli buf ≡ none → message_loop (suc fuel) buf ≡ stop buf
unfolding message_loop
message_loop_missing fuel buf h = elim (Bool-cases (leb 4 (length buf))) [
  | inl long ↦ rw (long, delimiter_position_missing buf h, message_loop)
  | inr short ↦ rw (short, message_loop)
]

-- Every fuel above the length of the buffer gives the same turn.
pub message_loop_enough :
    (n m : ℕ) (buf : Bytes)
    → length buf < 2 ^ 31
    → length buf < n
    → length buf < m
    → message_loop n buf ≡ message_loop m buf
message_loop_enough zero m buf l hn hm = absurd (omega arith)
message_loop_enough (suc n) zero buf l hn hm = absurd (omega arith)
message_loop_enough (suc n) (suc m) buf l hn hm = elim (Option-cases (find deli buf)) [
  | inl h ↦ message_loop_missing n buf h ∙ sym (message_loop_missing m buf h)
  | inr (p, h) ↦
      let fits : p + 4 ≤ length buf = find-length deli buf p h in
      let rest : length (drop (p + 4) buf) + (p + 4) ≡ length buf =
        omega (arith, length-drop (p + 4) buf) in
      message_loop_found n buf p l h
      ∙ ap (deliver (take p buf))
          (message_loop_enough n m (drop (p + 4) buf) (omega arith) (omega arith) (omega arith))
      ∙ sym (message_loop_found m buf p l h)
]

pub on_message_found :
    (buf : Bytes) (p : ℕ)
    → length buf < 2 ^ 31
    → find deli buf ≡ some p
    → on_message buf ≡ deliver (take p buf) (on_message (drop (p + 4) buf))
unfolding on_message
on_message_found buf p l h =
    let fits : p + 4 ≤ length buf = find-length deli buf p h in
    let rest : length (drop (p + 4) buf) + (p + 4) ≡ length buf =
      omega (arith, length-drop (p + 4) buf) in
    message_loop_found (length buf) buf p l h
    ∙ ap (deliver (take p buf)) (
        message_loop_enough (length buf) (suc (length (drop (p + 4) buf))) (drop (p + 4) buf)
          (omega arith) (omega arith) (omega arith))

pub on_message_missing : (buf : Bytes) → find deli buf ≡ none → on_message buf ≡ stop buf
unfolding on_message
on_message_missing buf h = message_loop_missing (length buf) buf h

-- The turn of a second chunk, behind the messages of the first.
abbrev then_turn : List Bytes → Turn → Turn
then_turn earlier turn = record { messages = earlier ++ turn.messages; rest = turn.rest }

fragments :
    (n : ℕ) (a b : Bytes)
    → length a < n
    → length (a ++ b) < 2 ^ 31
    → on_message (a ++ b)
      ≡ then_turn (on_message a).messages (on_message ((on_message a).rest ++ b))
fragments zero a b hn l = absurd (omega arith)
fragments (suc n) a b hn l = elim (Option-cases (find deli a)) [
  | inl h ↦ rw (on_message_missing a h)
  | inr (p, h) ↦
      let fits : p + 4 ≤ length a = find-length deli a p h in
      let total : length (a ++ b) ≡ length a + length b = length-append a b in
      let rest : length (drop (p + 4) a) + (p + 4) ≡ length a =
        omega (arith, length-drop (p + 4) a) in
      let rests : length (drop (p + 4) a ++ b) ≡ length (drop (p + 4) a) + length b =
        length-append (drop (p + 4) a) b in
      rw (
        on_message_found a p (omega arith) h,
        on_message_found (a ++ b) p l (find-append deli a b p h),
        drop-append_le (p + 4) a b fits,
        take-append_le p a b (omega arith),
        fragments n (drop (p + 4) a) b (omega arith) (omega arith),
      )
]

-- However a stream is cut in two, the second call of `onMessage`, on what the first left and the
-- second chunk, delivers what one call on the whole stream delivers after the first chunk's
-- messages, and leaves the same bytes; the stream is shorter than 2 GiB.
pub on_message_fragments :
    (a b : Bytes)
    → length (a ++ b) < 2 ^ 31
    → ((on_message (a ++ b)).messages
        ≡ (on_message a).messages ++ (on_message ((on_message a).rest ++ b)).messages)
      × ((on_message (a ++ b)).rest ≡ (on_message ((on_message a).rest ++ b)).rest)
on_message_fragments a b l =
    let e = fragments (suc (length a)) a b (omega arith) l in
    (ap (λ (t : Turn). t.messages) e, ap (λ (t : Turn). t.rest) e)

-- The stream of a list of messages, each before its delimiter.
unfoldable pub framed : List Bytes → Bytes
framed [] = []
framed (m ∷ ms) = m ++ deli ++ framed ms

abbrev pub LacksDeli : Bytes → Type 0
LacksDeli m = find deli m ≡ none

-- The head of a framed stream: one message is taken off, with its delimiter.
on_message_first :
    (m more : Bytes)
    → LacksDeli m
    → length (m ++ deli ++ more) < 2 ^ 31
    → on_message (m ++ deli ++ more) ≡ deliver m (on_message more)
on_message_first m more h l =
    on_message_found (m ++ deli ++ more) (length m) l (find-deli m more h)
    ∙ ap₂ (λ t u. deliver t (on_message u)) (message_taken) (message_dropped)
  where
    message_taken : take (length m) (m ++ deli ++ more) ≡ m
    message_taken = rw (append_assoc m deli more) (take-append_length m (deli ++ more))

    message_dropped : drop (length m + 4) (m ++ deli ++ more) ≡ more
    message_dropped = rw (← length-append m deli) (drop-append_length (m ++ deli) more)

-- A stream of framed messages that hold no delimiter, and an unfinished tail, is delivered message
-- by message, in order and unchanged, and the tail stays buffered; the stream is shorter than 2 GiB.
pub on_message-framed :
    (ms : List Bytes) (tail : Bytes)
    → All LacksDeli ms
    → LacksDeli tail
    → length (framed ms ++ tail) < 2 ^ 31
    → ((on_message (framed ms ++ tail)).messages ≡ ms)
      × ((on_message (framed ms ++ tail)).rest ≡ tail)
unfolding framed
on_message-framed [] tail hms ht l = rw (on_message_missing tail ht) (refl, refl)
on_message-framed (m ∷ ms) tail hms ht l =
    let e : m ++ deli ++ framed ms ++ tail ≡ m ++ deli ++ (framed ms ++ tail) =
      append_assoc (m ++ deli) (framed ms) tail in
    let l' : length (m ++ deli ++ (framed ms ++ tail)) < 2 ^ 31 = rw (← e) l in
    let shorter : length (framed ms ++ tail) < 2 ^ 31 =
      omega (arith, l', length-append (m ++ deli) (framed ms ++ tail)) in
    let ih = on_message-framed ms tail hms.1 ht shorter in
    rw (e, on_message_first m (framed ms ++ tail) hms.0 l') (ap (◌∷◌ m) ih.0, ih.1)
