-- ===== src/Quotes/Ticks.antt =====
-- The pending ticks of quote_client/quote_client: quoteClient::onStringMessage of client.cc adds to
-- `tickList` and `tickSet`, and dealMessage of utils.cc takes from them, both under `tickMutex`.
pub mod Invariant
pub mod Refinement
use vs2017code.Base.{
  ℕ, Bytes, codes, Bool, true, false, ◌&&◌, ◌||◌, List, [], ◌∷◌, ◌++◌, Option, none, some, leb, ltb,
  length, take, drop, bytes_eq, if◌then◌else◌,
}
use vs2017code.Framing.Header.{field_text}

abbrev pub max_size : ℕ
max_size = 5000

-- The header of these messages: 8 bytes of command and 4 of format.
abbrev header_len : ℕ
header_len = 12

-- `tickList`, and `tickSet` with its order left out.
pub record Ticks : Type 0 where
  pub list : List Bytes
  pub set : List Bytes

-- `tickSet.find(body) != tickSet.end()`, and `tickSet.erase(body)`.
unfoldable pub contains : Bytes → List Bytes → Bool
contains body [] = false
contains body (t ∷ set) = bytes_eq t body || contains body set

unfoldable pub erase : Bytes → List Bytes → List Bytes
erase body [] = []
erase body (t ∷ set) = let rest = erase body set in if bytes_eq t body then rest else t ∷ rest

unfoldable pub insert_tick : Bytes → Ticks → Ticks
insert_tick body ticks =
    if contains body ticks.set
    then ticks
    else record { list = ticks.list ++ body ∷ []; set = body ∷ ticks.set }

-- `front`, `pop_front` and `erase`; the callers test for an empty list first.
unfoldable pub drop_front : Ticks → Ticks
drop_front ticks = elim ticks.list [
  | [] ↦ ticks
  | t ∷ list ↦ record { list = list; set = erase t ticks.set }
]

unfoldable pub receive_tick : Bytes → Ticks → Ticks
unfolding insert_tick drop_front
receive_tick body ticks =
    let added = insert_tick body ticks in
    if ltb max_size (length added.list) then drop_front added else added

-- A message of the quote server: only the command HQDY has a tick.
unfoldable pub receive_message : Bytes → Ticks → Ticks
unfolding receive_tick
receive_message message ticks =
    if leb header_len (length message) && bytes_eq (field_text (take 8 message)) (codes "HQDY")
    then receive_tick (drop header_len message) ticks
    else ticks

is_empty : List Bytes → Bool
is_empty [] = true
is_empty (t ∷ list) = false

-- The first critical section of dealMessage.
unfoldable pub take_tick : Ticks → Option Bytes × Ticks
unfolding is_empty drop_front
take_tick ticks = elim ticks.list [
  | [] ↦ (none, ticks)
  | t ∷ list ↦ if is_empty ticks.set then (none, ticks) else (some t, drop_front ticks)
]

-- What the threads do, in order.
pub data Event : Type 0 where
  received : Bytes → Event
  dealt : Event

unfoldable pub after_event : Event → Ticks → Ticks
unfolding receive_message take_tick
after_event (received message) ticks = receive_message message ticks
after_event dealt ticks = (take_tick ticks).1

-- The ticks after some events, the last one first; both containers start empty.
unfoldable pub run_events : List Event → Ticks
unfolding after_event
run_events [] = record { list = []; set = [] }
run_events (e ∷ earlier) = after_event e (run_events earlier)
