-- ===== src/Quotes/Server.antt =====
-- QuoteServer of quote_client/quote_client/server.cc: its connections, those that have logged in, and
-- the results that it sends; Packet has what goes to a connection. A connection is a number; a set is a list without its order. `loopSend`
-- is one round at a time.
use vs2017code.Base.{
  ℕ, ◌-◌, ◌≡◌, refl, arith, Bytes, codes, Bool, false, ◌&&◌, ◌||◌, List, [], ◌∷◌, ◌++◌, ◌==◌, leb,
  length, take, drop, bytes_eq, if◌then◌else◌, map, ap, Bool-cases, inl, inr, ==_iff,
}
use vs2017code.Framing.Header.{field_text}
use vs2017code.Quotes.Packet.{Quote, login_body}

unfoldable pub has : ℕ → List ℕ → Bool
has conn [] = false
has conn (c ∷ set) = c == conn || has conn set

insert : ℕ → List ℕ → List ℕ
unfolding has
insert conn set = if has conn set then set else conn ∷ set

erase : ℕ → List ℕ → List ℕ
erase conn [] = []
erase conn (c ∷ set) = let rest = erase conn set in if c == conn then rest else c ∷ rest

-- `connections_`, `checkConns_`, and `resQue`.
pub record Server : Type 0 where
  pub connections : List ℕ
  pub checked : List ℕ
  pub results : List Quote

unfoldable pub on_connection : ℕ → Bool → Server → Server
unfolding insert erase
on_connection conn is_up server =
    if is_up
    then record server { connections = insert conn server.connections }
    else record server { connections = erase conn server.connections }

-- Whether a message is a login.
unfoldable pub is_login : Bytes → Bool
is_login message =
    leb 12 (length message)
    && (bytes_eq (field_text (take 8 message)) (codes "LGIN")
        && (bytes_eq (field_text (take 4 (drop 8 message))) (codes "TXT")
            && bytes_eq (take (length message - 12) (drop 12 message)) login_body))

unfoldable pub on_string_message : ℕ → Bytes → Server → Server
unfolding insert is_login
on_string_message conn message server =
    if is_login message then record server { checked = insert conn server.checked } else server

-- One round of loopSend: the connections to which a result is sent, with the result.
unfoldable pub send_result : Server → List (ℕ × Quote) × Server
send_result server = elim server.results [
  | [] ↦ ([], server)
  | result ∷ results ↦
      (map (λ conn. (conn, result)) server.checked, record server { results = results })
]

-- What happens to the server.
pub data Event : Type 0 where
  connection : ℕ → Bool → Event
  message : ℕ → Bytes → Event
  queued : Quote → Event
  sent : Event

unfoldable pub after_event : Event → Server → Server
unfolding on_connection on_string_message send_result
after_event (connection conn is_up) server = on_connection conn is_up server
after_event (message conn bytes) server = on_string_message conn bytes server
after_event (queued result) server = record server { results = server.results ++ result ∷ [] }
after_event sent server = (send_result server).1

-- The server after some events, the last one first.
unfoldable pub run_server : List Event → Server
unfolding after_event
run_server [] = record { connections = []; checked = []; results = [] }
run_server (e ∷ earlier) = after_event e (run_server earlier)

-- Whether a connection has sent a login among some events.
unfoldable pub has_logged_in : ℕ → List Event → Bool
has_logged_in conn [] = false
has_logged_in conn (connection c is_up ∷ earlier) = has_logged_in conn earlier
has_logged_in conn (message c bytes ∷ earlier) =
    (is_login bytes && c == conn) || has_logged_in conn earlier
has_logged_in conn (queued result ∷ earlier) = has_logged_in conn earlier
has_logged_in conn (sent ∷ earlier) = has_logged_in conn earlier

has-insert : (conn c : ℕ) (set : List ℕ) → has conn (insert c set) ≡ (c == conn || has conn set)
unfolding insert has
has-insert conn c set = elim (Bool-cases (c == conn)) [
  | inl same ↦ ground (arith, ap (λ u. has u set) ((==_iff c conn).0 same))
  | inr other ↦ ground arith
]

-- The connections to which results are sent are those that have ever logged in.
checked_lem :
    (conn : ℕ) (events : List Event)
    → has conn (run_server events).checked ≡ has_logged_in conn events
unfolding run_server after_event on_connection on_string_message send_result has_logged_in has
checked_lem conn [] = refl
checked_lem conn (connection c is_up ∷ earlier) = ground (arith, checked_lem conn earlier)
checked_lem conn (message c bytes ∷ earlier) =
    ground (arith, checked_lem conn earlier, has-insert conn c (run_server earlier).checked)
checked_lem conn (queued result ∷ earlier) = checked_lem conn earlier
checked_lem conn (sent ∷ earlier) = ground (arith, checked_lem conn earlier)

map-recipients :
    (result : Quote) (set : List ℕ)
    → map (λ (s : ℕ × Quote). s.0) (map (λ conn. (conn, result)) set) ≡ set
map-recipients result [] = refl
map-recipients result (conn ∷ set) = ap (◌∷◌ conn) (map-recipients result set)

-- When a result is queued, it is sent to exactly the connections that have ever logged in: a
-- connection that has gone down since is still among them.
pub send_result_lem :
    (conn : ℕ) (events : List Event) (result : Quote) (results : List Quote)
    → (run_server events).results ≡ result ∷ results
    → has conn (map (λ (s : ℕ × Quote). s.0) (send_result (run_server events)).0)
      ≡ has_logged_in conn events
unfolding send_result
send_result_lem conn events result results h =
    rw (h, send_result, map-recipients result (run_server events).checked) (checked_lem conn events)
