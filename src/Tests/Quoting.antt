-- ===== src/Tests/Quoting.antt =====
-- The quote client at concrete ticks, trades and clients.
use vs2017code.Base.{ℕ, ◌≡◌, refl, arith, Bytes, codes, true, false, List, [], ◌∷◌, ◌++◌, map}
use vs2017code.Base.{bytes_eq}
use vs2017code.Framing.Header.{field_text}
use vs2017code.Framing.Delimiter.{find, starts_with}
use vs2017code.Quotes.Ticks
use vs2017code.Quotes.Ticks.Invariant.{IsWellFormed, run_events-IsWellFormed}
use vs2017code.Quotes.Ticks.Refinement.{replay, first, run_events-replay}
use vs2017code.Quotes.Window.{expire, update_window, window, within, window_lem}
use vs2017code.Quotes.Packet.{Quote, login_body}
use vs2017code.Quotes.Server.{
  Event, connection, message, queued, has, run_server, send_result, has_logged_in, is_login,
  send_result_lem,
}

-- Two equal ticks, another one, and one that is dealt with.
abbrev tick : Bytes → Bytes
tick body = codes "HQDY" ++ (0 ∷ 0 ∷ 0 ∷ 0 ∷ codes "TXT" ++ (0 ∷ body))

abbrev ticks : List Ticks.Event
ticks =
    Ticks.dealt
    ∷ Ticks.received (tick (codes "ZCE|CF"))
    ∷ Ticks.received (tick (codes "ZCE|SR"))
    ∷ Ticks.received (tick (codes "ZCE|SR"))
    ∷ []

run_events-IsWellFormed_example : IsWellFormed (Ticks.run_events ticks)
run_events-IsWellFormed_example = run_events-IsWellFormed ticks

run_events-replay_example :
    ((Ticks.run_events ticks).list ≡ replay ticks)
    × ((Ticks.take_tick (Ticks.run_events ticks)).0 ≡ first (replay ticks))
run_events-replay_example = run_events-replay ticks

-- Four trades of a contract, the last one first.
abbrev trades : List (ℕ × ℕ)
trades = (170, 31) ∷ (165, 30) ∷ (110, 29) ∷ (100, 28) ∷ []

one_minute : window 60 trades ≡ (110, 29) ∷ (165, 30) ∷ (170, 31) ∷ []
unfolding window update_window expire
one_minute = refl

window_lem_example : window 60 trades ≡ within 60 170 trades
window_lem_example =
    window_lem 60 170 (170, 31) ((165, 30) ∷ (110, 29) ∷ (100, 28) ∷ [])
      ((omega arith), ((omega arith), ((omega arith), ((omega arith), tt))))

-- A client logs in and goes down, and then there is a result.
abbrev login : Bytes
login = codes "LGIN" ++ (0 ∷ 0 ∷ 0 ∷ 0 ∷ codes "TXT" ++ (0 ∷ login_body))

abbrev result : Quote
result = record {
  commodity = codes "CF";
  contract_no = codes "2101";
  exchange = codes "ZCE";
  res_str = codes "CF|2101|ZCE|2.5|0|0";
}

abbrev events : List Event
events = queued result ∷ connection 7 false ∷ message 7 login ∷ connection 7 true ∷ []

send_result_lem_example :
    has 7 (map (λ (s : ℕ × Quote). s.0) (send_result (run_server events)).0)
    ≡ has_logged_in 7 events
unfolding run_server field_text bytes_eq find starts_with
send_result_lem_example = send_result_lem 7 events result [] refl

logged_in : has_logged_in 7 events ≡ true
unfolding has_logged_in field_text bytes_eq find starts_with is_login
logged_in = refl

pending : Ticks.run_events ticks ≡ record { list = codes "ZCE|CF" ∷ []; set = codes "ZCE|CF" ∷ [] }
unfolding Ticks.run_events Ticks.after_event field_text bytes_eq find starts_with Ticks.contains
    Ticks.erase
pending = refl
