-- ===== src/Framing/Header.antt =====
-- The fixed header in front of a message body: `Header` and LengthHeaderCodec::send of
-- Deli_time_server/Deli_time_server/{codec.h,codec.cc}, and the part of comServer::dealMessage of
-- server.cc that takes the header apart. The header is packed: 8 bytes of command, 4 of format, 32
-- of user name, and `strcpy` may run from one member into the next.
pub mod Memory
pub mod RoundTrip
use vs2017code.Base.{
  ℕ, zero, suc, ◌+◌, Bytes, Option, none, some, [], ◌∷◌, ◌++◌, ◌==◌, leb, if◌then◌else◌, length,
  take, drop, c_string,
}
use vs2017code.Base.Chain.{◌>>=◌}
use vs2017code.Framing.Delimiter.{deli, find}

abbrev pub header_len : ℕ
header_len = 44

-- A write into an object's memory; `none` is a write past its end.
unfoldable pub overwrite : ℕ → Bytes → Bytes → Option Bytes
overwrite offset src memory =
    if leb (offset + length src) (length memory)
    then some (take offset memory ++ (src ++ drop (offset + length src) memory))
    else none

unfoldable pub strcpy : ℕ → Bytes → Bytes → Option Bytes
unfolding overwrite c_string
strcpy offset src memory = overwrite offset (c_string src ++ 0 ∷ []) memory

-- `Header head;` is not initialised: `stack` is what its memory holds before.
pub fill_header : Bytes → Bytes → Bytes → Bytes → Option Bytes
fill_header stack cmd format user_name = do
  with_cmd ← strcpy 0 cmd stack
  with_format ← strcpy 8 format with_cmd
  strcpy 12 user_name with_format

-- The bytes that `send` hands to the connection; `none` if a `strcpy` leaves the header.
pub send : Bytes → Bytes → Bytes → Bytes → Bytes → Option Bytes
unfolding fill_header
send stack cmd format user_name body = do
  head ← fill_header stack cmd format user_name
  some (head ++ body ++ deli)

-- `if (buf.find('\0') > 0) substr(0, find) else buf`, where `npos` is above 0 and `substr` stops at
-- the end.
unfoldable pub field_text : Bytes → Bytes
field_text buf = elim (find (0 ∷ []) buf) [
  | none ↦ buf
  | some p ↦ elim p [ zero ↦ buf | suc q ↦ take (suc q) buf ]
]

pub record Request : Type 0 where
  pub cmd : Bytes
  pub format : Bytes
  pub user_name : Bytes
  pub body : Bytes

-- The first half of `dealMessage`; a shorter message is ignored.
unfoldable pub parse_message : Bytes → Option Request
parse_message msg =
    if leb header_len (length msg)
    then some (record {
      cmd = field_text (take 8 msg);
      format = field_text (take 4 (drop 8 msg));
      user_name = field_text (take 32 (drop 12 msg));
      body = drop header_len msg;
    })
    else none
