-- ===== src/Framing/LengthHeader.antt =====
-- LengthHeaderCodec of Custom_rules/comServer_costom/comServer_costom/{codec.h,codec.cc}: messages
-- behind a header of 12 bytes, the length (4, big-endian), a checksum, 3 bytes of padding (the
-- `#pragma pack` lines are commented out) and an identifier (4, big-endian).
pub mod Stream
pub mod RoundTrip
pub mod Bounds
use vs2017code.Base.{
  ℕ, zero, suc, ◌+◌, ◌*◌, ◌/◌, ◌%◌, ◌^◌, Bytes, Bool, true, false, List, [], ◌∷◌, ◌++◌, leb, ltb,
  length, get_or, take, drop, ℤ, pos, negsuc, to_int32,
}

abbrev pub header_len : ℕ
header_len = 12

-- Four bytes from the network, as an unsigned value.
unfoldable pub network_to_host32 : Bytes → ℕ → ℕ
network_to_host32 buf i =
    ((get_or buf i 0 * 256 + get_or buf (i + 1) 0) * 256 + get_or buf (i + 2) 0) * 256
    + get_or buf (i + 3) 0

unfoldable pub host_to_network32 : ℕ → Bytes
host_to_network32 n = (n / 2 ^ 24 % 256) ∷ (n / 2 ^ 16 % 256) ∷ (n / 2 ^ 8 % 256) ∷ (n % 256) ∷ []

-- `len > 65536 || len < 0`; otherwise the length.
pub data Length : Type 0 where
  invalid : Length
  valid : ℕ → Length

unfoldable pub check_length : ℤ → Length
check_length (pos n) = elim (ltb 65536 n) [ true ↦ invalid | false ↦ valid n ]
check_length (negsuc n) = invalid

-- What the head of the buffer is: less than a message, a bad length, or a whole message whose body
-- has so many bytes.
pub data Head : Type 0 where
  incomplete : Head
  bad_length : Head
  whole : ℕ → Head

-- The conditions of one round of `onMessage`.
unfoldable pub peek : Bytes → Head
unfolding check_length
peek buf = elim (leb header_len (length buf)) [
  | false ↦ incomplete
  | true ↦ elim (check_length (to_int32 (network_to_host32 buf 0))) [
    | invalid ↦ bad_length
    | valid len ↦ elim (leb (len + header_len) (length buf)) [
      | true ↦ whole len
      | false ↦ incomplete
    ]
  ]
]

-- What one call of `onMessage` delivers, whether it shut the connection down, and what it leaves.
pub record Turn : Type 0 where
  pub messages : List Bytes
  pub shut_down : Bool
  pub rest : Bytes

abbrev pub deliver : Bytes → Turn → Turn
deliver message turn = record turn { messages = message ∷ turn.messages }

abbrev pub stop : Bool → Bytes → Turn
stop shut buf = record { messages = []; shut_down = shut; rest = buf }

-- The `while` loop. Each round takes at least a header off the buffer.
unfoldable pub message_loop : ℕ → Bytes → Turn
message_loop zero buf = stop false buf
message_loop (suc fuel) buf = elim (peek buf) [
  | incomplete ↦ stop false buf
  | bad_length ↦ stop true buf
  | whole len ↦
      deliver (take len (drop header_len buf)) (message_loop fuel (drop len (drop header_len buf)))
]

unfoldable pub on_message : Bytes → Turn
on_message buf = message_loop (suc (length buf)) buf

-- `send`; `padding` is what the padding of the header on the stack holds.
unfoldable pub send : Bytes → Bytes → Bytes
send padding message =
    host_to_network32 (length message % 2 ^ 32) ++ (1 ∷ padding ++ (host_to_network32 1 ++ message))
