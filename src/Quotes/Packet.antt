-- ===== src/Quotes/Packet.antt =====
-- LengthHeaderCodec::send of quote_client/quote_client/codec.cc, with the packed structs of codec.h: a
-- login has the header of the other delimiter programs without a user name, any other packet is a
-- result for the gateway. The machine is little-endian.
pub mod Layout
use vs2017code.Base.{
  ℕ, zero, suc, ◌+◌, Bytes, codes, Option, none, some, [], ◌∷◌, ◌++◌, bytes_eq, if◌then◌else◌,
  length,
}
use vs2017code.Base.Chain.{◌>>=◌}
use vs2017code.Framing.Delimiter.{deli}
use vs2017code.Framing.Header.{overwrite, strcpy}
use vs2017code.Framing.LengthHeader.{host_to_network32}

-- `lginBody` of codec.h.
abbrev pub login_body : Bytes
login_body = codes "FL@G4AES8LJF3R3RT5POE9KFA@HFASF$;NASF(*&J;JFEASFJKJ;FEAF^FEAFHLL"

-- `sizeof(hq_packet_t)`: 8 bytes of exchange, 4 of commodity and 8 of contract number.
abbrev pub hq_size : ℕ
hq_size = 20

abbrev pub zeros : ℕ → Bytes
zeros zero = []
zeros (suc n) = 0 ∷ zeros n

-- A `resStruct` of utils.h.
pub record Quote : Type 0 where
  pub commodity : Bytes
  pub contract_no : Bytes
  pub exchange : Bytes
  pub res_str : Bytes

-- The three `memcpy`s into `hq_pkt`; `none` is a write past its end.
unfoldable pub fill_hq : Bytes → Bytes → Bytes → Option Bytes
unfolding overwrite
fill_hq cmd format body = do
  with_exchange ← overwrite 0 cmd (zeros hq_size)
  with_commodity ← overwrite 8 format with_exchange
  overwrite 12 body with_commodity

-- `Header head = { '0' };` and the two `strcpy`s.
unfoldable pub fill_login : Bytes → Bytes → Option Bytes
unfolding strcpy
fill_login cmd format = do with_cmd ← strcpy 0 cmd (48 ∷ zeros 11); strcpy 8 format with_cmd

-- `front_packet_t`: the command, the identifier and the size.
unfoldable pub front_packet : ℕ → Bytes
front_packet size = 6 ∷ zeros 4 ++ host_to_network32 size

unfoldable pub send_login : Bytes → Bytes → Bytes → Option Bytes
unfolding fill_login
send_login cmd format body = do head ← fill_login cmd format; some (head ++ (body ++ deli))

unfoldable pub send_hq : Bytes → Bytes → Bytes → Bytes → Option Bytes
unfolding fill_hq front_packet
send_hq cmd format body res_str = do
  hq ← fill_hq cmd format body
  some (front_packet (hq_size + length res_str) ++ (hq ++ res_str))

-- The bytes that `send` hands to the connection.
unfoldable pub send : Bytes → Bytes → Bytes → Bytes → Option Bytes
unfolding send_login send_hq
send cmd format body res_str =
    if bytes_eq cmd (codes "LGIN")
    then send_login cmd format body
    else send_hq cmd format body res_str

-- What QuoteServer::loopSend sends to each connection.
unfoldable pub send_quote : Quote → Option Bytes
unfolding send
send_quote quote = send quote.commodity quote.contract_no quote.exchange quote.res_str
