-- ===== src/Framing/LengthHeader/RoundTrip.antt =====
-- Messages that `send` frames come out of `onMessage` unchanged.
use vs2017code.Base.{
  ℕ, ◌+◌, ◌%◌, ◌^◌, ◌≤◌, ◌<◌, ◌≡◌, refl, ◌∙◌, arith, Bytes, false, List, [], ◌∷◌, ◌++◌, map,
  append_assoc, length, length-append, drop, take-append_length, drop-append_length, All,
}
use vs2017code.Framing.LengthHeader.{
  host_to_network32, network_to_host32, whole, peek, message_loop, on_message, send,
}
use vs2017code.Framing.LengthHeader.Stream.{on_message_whole}

-- The four bytes of a 32-bit value are read back.
pub network_to_host32-host_to_network32 :
    (n : ℕ) (more : Bytes) → n < 2 ^ 32 → network_to_host32 (host_to_network32 n ++ more) 0 ≡ n
unfolding network_to_host32 host_to_network32
network_to_host32-host_to_network32 n more h = omega arith

drop-send :
    (padding message more : Bytes)
    → length padding ≡ 3
    → drop 12 (send padding message ++ more) ≡ message ++ more
unfolding send host_to_network32
drop-send [] message more h = absurd (omega arith)
drop-send (a ∷ []) message more h = absurd (omega arith)
drop-send (a ∷ b ∷ []) message more h = absurd (omega arith)
drop-send (a ∷ b ∷ c ∷ []) message more h = refl
drop-send (a ∷ b ∷ c ∷ d ∷ padding) message more h = absurd (omega arith)

length-send :
    (padding message : Bytes)
    → length padding ≡ 3
    → length (send padding message) ≡ 12 + length message
unfolding send host_to_network32
length-send padding message h = omega (
  arith,
  length-append padding (host_to_network32 1 ++ message),
  length-append (host_to_network32 1) message,
)

length-on_wire :
    (padding message more : Bytes)
    → length padding ≡ 3
    → length (send padding message ++ more) ≡ 12 + length message + length more
length-on_wire padding message more h =
    omega (arith, length-append (send padding message) more, length-send padding message h)

length_field :
    (padding message more : Bytes)
    → length message ≤ 65536
    → network_to_host32 (send padding message ++ more) 0 ≡ length message
unfolding send
length_field padding message more l =
    rw append_assoc
      (network_to_host32-host_to_network32 (length message % 2 ^ 32) _ (omega arith) ∙ omega arith)

peek-send :
    (padding message more : Bytes)
    → length padding ≡ 3
    → length message ≤ 65536
    → peek (send padding message ++ more) ≡ whole (length message)
unfolding peek
peek-send padding message more h l =
    ground (arith, length_field padding message more l, length-on_wire padding message more h)

-- A stream of sends, each with the padding its header happens to hold.
unfoldable pub sent : List (Bytes × Bytes) → Bytes
sent [] = []
sent ((padding, message) ∷ sends) = send padding message ++ sent sends

abbrev pub IsSend : Bytes × Bytes → Type 0
IsSend s = (length s.0 ≡ 3) × (length s.1 ≤ 65536)

-- What was sent as messages of at most 65536 bytes is delivered message by message, in order and
-- unchanged, with no shutdown and nothing left over.
pub on_message-sent :
    (sends : List (Bytes × Bytes))
    → All IsSend sends
    → on_message (sent sends)
      ≡ record { messages = map (λ s. s.1) sends; shut_down = false; rest = [] }
unfolding sent
on_message-sent [] h = unfold on_message message_loop peek in refl
on_message-sent ((p, m) ∷ sends) h = rw (
  on_message_whole (send p m ++ sent sends) (length m) (peek-send p m (sent sends) h.0.0 h.0.1),
  drop-send p m (sent sends) h.0.0,
  take-append_length m (sent sends),
  drop-append_length m (sent sends),
  on_message-sent sends h.1,
)
