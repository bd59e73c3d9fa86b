-- ===== src/Tests/Wire.antt =====
-- Runs of the framings, and their theorems at concrete streams.
use vs2017code.Base.{
  ◌≡◌, refl, arith, Bytes, codes, List, true, false, [], ◌∷◌, ◌++◌, some, length, All, ◌⊎◌, ◌<◌,
  ◌+◌,
}
use vs2017code.Framing.Delimiter.{deli, find, message_loop, on_message, delimiter_position}
use vs2017code.Framing.Delimiter.Stream.{framed, on_message_fragments, on_message-framed}
use vs2017code.Framing.Header.{send, parse_message}
use vs2017code.Framing.Header.RoundTrip.{parse_message-send}
use vs2017code.Framing.LengthHeader
use vs2017code.Framing.LengthHeader.Stream.{on_message_chunks}
use vs2017code.Framing.LengthHeader.RoundTrip.{sent, on_message-sent}
use vs2017code.Framing.LengthHeader.Bounds.{Bounded, on_message_bounds, on_message_after_bad_length}

-- Two messages and the beginning of a third.
abbrev stream : Bytes
stream = codes "one@%&)two@%&)th@%"

cuts : on_message stream ≡ record { messages = codes "one" ∷ codes "two" ∷ []; rest = codes "th@%" }
unfolding on_message message_loop delimiter_position find
cuts = refl

on_message_fragments_example :
    ((on_message (codes "one@%" ++ codes "&)two")).messages
      ≡ (on_message (codes "one@%")).messages
        ++ (on_message ((on_message (codes "one@%")).rest ++ codes "&)two")).messages)
    × ((on_message (codes "one@%" ++ codes "&)two")).rest
        ≡ (on_message ((on_message (codes "one@%")).rest ++ codes "&)two")).rest)
on_message_fragments_example = on_message_fragments (codes "one@%") (codes "&)two") (omega arith)

abbrev two_messages : List Bytes
two_messages = codes "one" ∷ codes "two" ∷ []

on_message-framed_example :
    ((on_message (framed two_messages ++ codes "th@%")).messages ≡ two_messages)
    × ((on_message (framed two_messages ++ codes "th@%")).rest ≡ codes "th@%")
unfolding find framed
on_message-framed_example =
    on_message-framed two_messages (codes "th@%") (refl, (refl, tt)) refl (omega arith)

abbrev stack : Bytes
stack = codes "abcdefghijklmnopqrstuvwxyzabcdefghijklmnopqr"

parse_message-send_example :
    (message : Bytes) × (send stack (codes "login") (codes "json") (codes "chao") (codes "{}")
      ≡ some (message ++ deli))
    × (parse_message message
        ≡ some (record {
          cmd = codes "login";
          format = codes "json";
          user_name = codes "chao";
          body = codes "{}";
        }))
parse_message-send_example =
    parse_message-send stack (codes "login") (codes "json") (codes "chao") (codes "{}") refl
      (record {
        cmd_text = (
          (λ e. omega arith),
          (
            (λ e. omega arith),
            ((λ e. omega arith), ((λ e. omega arith), ((λ e. omega arith), tt))),
          ),
        );
        cmd_some = omega arith;
        cmd_room = omega arith;
        format_text = (
          (λ e. omega arith),
          ((λ e. omega arith), ((λ e. omega arith), ((λ e. omega arith), tt))),
        );
        format_some = omega arith;
        format_room = omega arith;
        user_text = (
          (λ e. omega arith),
          ((λ e. omega arith), ((λ e. omega arith), ((λ e. omega arith), tt))),
        );
        user_some = omega arith;
        user_room = omega arith;
      })

-- A whole message, and the beginning of a header.
abbrev whole_and_more : Bytes
whole_and_more = LengthHeader.send (codes "xyz") (codes "hello") ++ (0 ∷ 0 ∷ [])

on_message_chunks_example :
    let a = whole_and_more in
    let b : Bytes = 0 ∷ 1 ∷ [] in
    let second = LengthHeader.on_message ((LengthHeader.on_message a).rest ++ b) in
    let once = LengthHeader.on_message (a ++ b) in
    (once.messages ≡ (LengthHeader.on_message a).messages ++ second.messages)
    × (once.shut_down ≡ second.shut_down)
    × (once.rest ≡ second.rest)
on_message_chunks_example = on_message_chunks whole_and_more (0 ∷ 1 ∷ [])

abbrev two_sends : List (Bytes × Bytes)
two_sends = (codes "xyz", codes "hello") ∷ (codes "abc", []) ∷ []

on_message-sent_example :
    LengthHeader.on_message (sent two_sends)
    ≡ record { messages = codes "hello" ∷ [] ∷ []; shut_down = false; rest = [] }
on_message-sent_example = on_message-sent two_sends ((refl, omega arith), ((refl, omega arith), tt))

-- A header whose length has its sign bit set.
abbrev bad_header : Bytes
bad_header = 255 ∷ 0 ∷ 0 ∷ 0 ∷ codes "12345678"

on_message_bounds_example :
    All Bounded (LengthHeader.on_message bad_header).messages
    × (((LengthHeader.on_message bad_header).shut_down ≡ true)
        ⊎ (length (LengthHeader.on_message bad_header).rest < 12 + 65536))
on_message_bounds_example = on_message_bounds bad_header

on_message_after_bad_length_example :
    LengthHeader.on_message ((LengthHeader.on_message bad_header).rest ++ codes "more") ≡ record {
      messages = [];
      shut_down = true;
      rest = (LengthHeader.on_message bad_header).rest ++ codes "more";
    }
unfolding LengthHeader.on_message LengthHeader.message_loop LengthHeader.peek
    LengthHeader.check_length LengthHeader.network_to_host32
on_message_after_bad_length_example = on_message_after_bad_length bad_header (codes "more") refl
