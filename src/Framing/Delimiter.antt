-- ===== src/Framing/Delimiter.antt =====
-- LengthHeaderCodec::onMessage of Deli_time_server/Deli_time_server/codec.cc, the framing by the
-- delimiter "@%&)" that the delimiter servers and quote clients share.
-- The input buffer of a connection is the list of its readable bytes.
pub mod Search
pub mod Stream
use vs2017code.Base.{
  ℕ, zero, suc, ◌+◌, ◌-◌, ◌^◌, Bytes, codes, Bool, true, false, ◌&&◌, List, [], ◌∷◌, Option, none,
  some, ◌==◌, leb, if◌then◌else◌, length, take, drop, ℤ, pos, negsuc, to_int32,
}
use mathlib.Core.Option

-- `deli` and `deliLen` of codec.h.
abbrev pub deli : Bytes
deli = codes "@%&)"

abbrev pub deli_len : ℕ
deli_len = 4

-- `std::string::npos`.
abbrev npos : ℕ
npos = 2 ^ 64 - 1

unfoldable pub starts_with : Bytes → Bytes → Bool
starts_with [] text = true
starts_with (c ∷ needle) [] = false
starts_with (c ∷ needle) (d ∷ text) = c == d && starts_with needle text

-- `text.find(needle)`: the first position at which the needle stands.
unfoldable pub find : Bytes → Bytes → Option ℕ
unfolding starts_with
find needle [] = if starts_with needle [] then some 0 else none
find needle (c ∷ text) =
    if starts_with needle (c ∷ text) then some 0 else Option.map suc (find needle text)

-- `int pos = static_cast<int>(strData.find(deli))`.
unfoldable pub delimiter_position : Bytes → ℤ
delimiter_position text = elim (find deli text) [ none ↦ to_int32 npos | some p ↦ to_int32 p ]

-- What one call of `onMessage` hands to `messageCallback_`, in order, and what it leaves buffered.
pub record Turn : Type 0 where
  pub messages : List Bytes
  pub rest : Bytes

abbrev pub deliver : Bytes → Turn → Turn
deliver message turn = record { messages = message ∷ turn.messages; rest = turn.rest }

abbrev pub stop : Bytes → Turn
stop buf = record { messages = []; rest = buf }

-- The `while` loop. Each round takes at least four bytes off the buffer.
unfoldable pub message_loop : ℕ → Bytes → Turn
message_loop zero buf = stop buf
message_loop (suc fuel) buf = elim (leb deli_len (length buf)) [
  | false ↦ stop buf
  | true ↦ elim (delimiter_position buf) [
    | pos p ↦ deliver (take p buf) (message_loop fuel (drop (p + deli_len) buf))
    | negsuc _ ↦ stop buf
  ]
]

unfoldable pub on_message : Bytes → Turn
on_message buf = message_loop (suc (length buf)) buf
