-- ===== src/Tests/Server.antt =====
-- A concrete MySQL server for the tests: it plays back a list of replies, and its numbers are digits.
use vs2017code.Base.{ltb, ℕ, ◌+◌, ◌*◌, ◌-◌, arith, Bytes, Bool, true, false, List, [], ◌∷◌, pos}
use vs2017code.Dblayer.Platform.{
  Platform, ConversionsRoundTrip, Login, Reply, failed, live, Session,
}

pub record Script : Type 0 where
  -- whether the server answers a ping, and whether it takes a connection
  pub alive : Bool
  pub reachable : Bool
  pub replies : List Reply

abbrev next_reply : Script → Reply × Script
next_reply script = elim script.replies [
  | [] ↦ (failed, script)
  | reply ∷ replies ↦ (reply, record script { replies = replies })
]

abbrev digit_value : Bytes → ℕ
digit_value [] = 0
digit_value (c ∷ text) = c - 48

abbrev pub scripted : Platform
scripted = record {
  Server = Script;
  init_succeeds = λ _. true;
  options_succeed = λ _. true;
  real_connect = λ script login. (script.reachable, record script { alive = script.reachable });
  set_character_set = λ script name. script;
  select_db = λ script db. (pos 0, script);
  close = λ script. script;
  ping_succeeds = λ script. (script.alive, script);
  real_query = λ script sql. next_reply script;
  Int = ℕ;
  Double = ℕ;
  int_value = λ n. pos n;
  print_int = λ n. (n + 48) ∷ [];
  print_double = λ n. (n + 48) ∷ [];
  to_int = digit_value;
  to_double = digit_value;
  to_long_long = λ text. pos (digit_value text);
  double_zero = 0;
  double_one = 1;
  plus = λ x y. x + y;
  times = λ x y. x * y;
  greater = λ x y. ltb y x;
}

abbrev pub scripted_laws : ConversionsRoundTrip scripted
scripted_laws = record {
  to_int-print_int = λ n. omega arith;
  to_double-print_double = λ n. omega arith;
}

abbrev some_login : Login
some_login = record { host = []; user = []; passwd = []; db = []; port = 3306; client_flag = 0 }

-- A session whose server is alive and gives these replies, and one whose connection is lost, to a
-- server that may be reached again.
abbrev pub connected_to : List Reply → Session scripted
connected_to replies = record {
  handle = live;
  open_handles = 1;
  login = some_login;
  server = record { alive = true; reachable = true; replies = replies };
}

abbrev pub lost : Bool → Session scripted
lost reachable = record {
  handle = live;
  open_handles = 1;
  login = some_login;
  server = record { alive = false; reachable = reachable; replies = [] };
}
