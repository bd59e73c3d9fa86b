-- ===== src/Quotes/Ticks/Refinement.antt =====
-- The pending ticks as a client sees them: one queue without repeats, of the 5000 newest.
use vs2017code.Base.{
  ℕ, ◌+◌, ◌-◌, ◌≤◌, ◌≡◌, inl, inr, refl, ap, ◌∙◌, arith, Bytes, Bool, true, false, codes, List, [],
  ◌∷◌, ◌++◌, Option, none, some, length, length-append, take, drop, ltb, leb, ◌&&◌, bytes_eq,
  bytes_eq_refl, if◌then◌else◌, Bool-cases,
}
use vs2017code.Framing.Header.{field_text}
use vs2017code.Quotes.Ticks.{
  Ticks, contains, drop_front, insert_tick, receive_tick, receive_message, take_tick, Event,
  received, dealt, after_event, run_events, max_size,
}
use vs2017code.Quotes.Ticks.Invariant.{times, contains-times, IsWellFormed, run_events-IsWellFormed}

-- The last `n` of a list.
unfoldable pub newest : ℕ → List Bytes → List Bytes
newest n list = drop (length list - n) list

unfoldable pub remember : Bytes → List Bytes → List Bytes
unfolding newest
remember body queue = if contains body queue then queue else newest max_size (queue ++ body ∷ [])

unfoldable pub first : List Bytes → Option Bytes
first [] = none
first (t ∷ queue) = some t

unfoldable pub is_tick : Bytes → Bool
is_tick message = leb 12 (length message) && bytes_eq (field_text (take 8 message)) (codes "HQDY")

-- The abstract queue after some events, the last one first.
unfoldable pub replay : List Event → List Bytes
unfolding is_tick remember
replay [] = []
replay (received message ∷ earlier) =
    let queue = replay earlier in
    if is_tick message then remember (drop 12 message) queue else queue
replay (dealt ∷ earlier) = drop 1 (replay earlier)

times-contains : (x : Bytes) (set : List Bytes) → contains x set ≡ true → 1 ≤ times x set
unfolding times contains
times-contains x [] h = ground arith
times-contains x (t ∷ set) h = ground (arith, times-contains x set)

contains-agree :
    (x : Bytes) (a b : List Bytes) → times x a ≡ times x b → contains x a ≡ contains x b
contains-agree x a b h =
    ground (arith, contains-times x a, contains-times x b, times-contains x a, times-contains x b)

drop_front_list :
    (list set : List Bytes) → (drop_front (record { list = list; set = set })).list ≡ drop 1 list
unfolding drop_front
drop_front_list [] set = refl
drop_front_list (t ∷ list) set = refl

newest-one_more :
    (queue : List Bytes)
    → length queue ≤ max_size + 1
    → newest max_size queue ≡ (if ltb max_size (length queue) then drop 1 queue else queue)
unfolding newest
newest-one_more queue h = elim (Bool-cases (ltb max_size (length queue))) [
  | inl above ↦ let one : length queue - max_size ≡ 1 = ground arith in rw (above, one) refl
  | inr within ↦ let zero : length queue - max_size ≡ 0 = ground arith in rw (within, zero) refl
]

newest-within : (queue : List Bytes) → length queue ≤ max_size → ltb max_size (length queue) ≡ false
newest-within queue h = ground arith

receive_tick-remember :
    (body : Bytes) (ticks : Ticks)
    → IsWellFormed ticks
    → (receive_tick body ticks).list ≡ remember body ticks.list
unfolding receive_tick insert_tick remember
receive_tick-remember body ticks w =
    rw (contains-agree body ticks.list ticks.set (w.agree body))
      (elim (Bool-cases (contains body ticks.set)) [
        | inl h ↦ rw (h, newest-within ticks.list w.bounded) refl
        | inr h ↦
            let queue : List Bytes = ticks.list ++ body ∷ [] in
            let size : length queue ≤ max_size + 1 =
              omega (arith, w.bounded, length-append ticks.list (body ∷ [])) in
            rw (h, newest-one_more queue size)
              (elim (Bool-cases (ltb max_size (length queue))) [
                | inl above ↦ rw (above) (drop_front_list queue (body ∷ ticks.set))
                | inr within ↦ rw (within) refl
              ])
      ])

receive_message-replay :
    (message : Bytes) (ticks : Ticks)
    → IsWellFormed ticks
    → (receive_message message ticks).list
      ≡ (if is_tick message then remember (drop 12 message) ticks.list else ticks.list)
unfolding receive_message is_tick
receive_message-replay message ticks w = elim (Bool-cases (is_tick message)) [
  | inl h ↦ rw (h) (receive_tick-remember (drop 12 message) ticks w)
  | inr h ↦ rw (h) refl
]

take_tick-first :
    (list set : List Bytes)
    → ((x : Bytes) → times x list ≡ times x set)
    → let taken = take_tick (record { list = list; set = set }) in
      (taken.0 ≡ first list) × (taken.1.list ≡ drop 1 list)
unfolding take_tick first times drop_front
take_tick-first [] set agree = (refl, refl)
take_tick-first (t ∷ list) [] agree = absurd (ground (arith, agree t, bytes_eq_refl t))
take_tick-first (t ∷ list) (u ∷ set) agree = (refl, refl)

-- Whatever messages arrive and whenever dealMessage takes a tick, the list of pending ticks is that
-- of the abstract queue, which looks only in itself for a repeated tick and keeps the 5000 newest,
-- and the next tick that dealMessage takes is the first of that queue.
pub run_events-replay :
    (events : List Event)
    → ((run_events events).list ≡ replay events)
      × ((take_tick (run_events events)).0 ≡ first (replay events))
unfolding run_events after_event replay
run_events-replay events = (list_lem events, next)
  where
    list_lem : (events : List Event) → (run_events events).list ≡ replay events
    list_lem [] = refl
    list_lem (received message ∷ earlier) =
        receive_message-replay message (run_events earlier) (run_events-IsWellFormed earlier)
        ∙ rw (list_lem earlier) refl
    list_lem (dealt ∷ earlier) =
        let before = run_events earlier in
        (take_tick-first before.list before.set (run_events-IsWellFormed earlier).agree).1
        ∙ ap (drop 1) (list_lem earlier)

    next : (take_tick (run_events events)).0 ≡ first (replay events)
    next =
        let now = run_events events in
        (take_tick-first now.list now.set (run_events-IsWellFormed events).agree).0
        ∙ ap first (list_lem events)
