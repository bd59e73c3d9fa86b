-- ===== src/Quotes/Client.antt =====
-- The start of quote_client/quote_client: loadConfigFile of utils.cc, on the lines of the file, and
-- the connection of a quoteClient of client.cc. A connection is a number.
use vs2017code.Base.{
  ℕ, ◌-◌, ◌%◌, ◌^◌, Bytes, codes, Bool, true, false, List, [], ◌∷◌, Option, none, some, bytes_eq,
  if◌then◌else◌, ℤ, pos, negsuc,
}
use vs2017code.Pool.Config.{extract, atoi}
use vs2017code.Quotes.Packet.{login_body, send}

-- `static_cast<uint16_t>` of an `int`.
unfoldable pub to_uint16 : ℤ → ℕ
to_uint16 (pos n) = n % 2 ^ 16
to_uint16 (negsuc n) = 2 ^ 16 - 1 - n % 2 ^ 16

-- The variables that loadConfigFile sets.
pub record Settings : Type 0 where
  pub host1 : Bytes
  pub port1 : ℕ
  pub host2 : Bytes
  pub port2 : ℕ
  pub server_port : ℕ

-- The chain of comparisons with the key; `none` is "wrong conf format".
unfoldable pub assign : Bytes → Bytes → Settings → Option Settings
unfolding to_uint16
assign key value settings =
    if bytes_eq key (codes "ip1")
    then some (record settings { host1 = value })
    else if bytes_eq key (codes "port1")
    then some (record settings { port1 = to_uint16 (atoi value) })
    else if bytes_eq key (codes "ip2")
    then some (record settings { host2 = value })
    else if bytes_eq key (codes "port2")
    then some (record settings { port2 = to_uint16 (atoi value) })
    else if bytes_eq key (codes "serverPort")
    then some (record settings { server_port = to_uint16 (atoi value) })
    else none

-- The loop; `key` and `value` keep what the last line left in them.
unfoldable pub load_lines : Bytes → Bytes → Settings → List Bytes → Bool × Settings
unfolding assign
load_lines key value settings [] = (true, settings)
load_lines key value settings (line ∷ lines) =
    let (key', rest) = extract key line in
    let (value', tail) = extract value rest in
    elim (assign key' value' settings) [
      | none ↦ (false, settings)
      | some settings' ↦ load_lines key' value' settings' lines
    ]

-- The file, or `none` when it cannot be opened.
unfoldable pub load_config_file : Settings → Option (List Bytes) → Bool × Settings
unfolding load_lines
load_config_file settings none = (false, settings)
load_config_file settings (some lines) = load_lines [] [] settings lines

-- `connection_`, after what quoteClient::onConnection sends.
unfoldable pub on_connection : ℕ → Bool → Option Bytes × Option ℕ
unfolding send
on_connection conn is_up =
    if is_up then (send (codes "LGIN") (codes "TXT") login_body [], some conn) else (none, none)

-- What quoteClient::write sends, and to which connection, when there is one.
unfoldable pub write : Bytes → Bytes → Bytes → Option ℕ → Option (ℕ × Option Bytes)
unfolding send
write cmd format body none = none
write cmd format body (some conn) = some (conn, send cmd format body [])
