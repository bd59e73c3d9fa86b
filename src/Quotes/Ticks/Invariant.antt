-- ===== src/Quotes/Ticks/Invariant.antt =====
-- The list and the set of pending ticks agree, and stay bounded.
use vs2017code.Base.{
  ℕ, suc, ◌+◌, ◌≤◌, ◌≡◌, ◌⊎◌, inl, inr, refl, sym, ap, ◌∙◌, arith, Bytes, false, List, [], ◌∷◌,
  ◌++◌, length, length-append, drop, ltb, bytes_eq, bytes_eq_sound, if◌then◌else◌, Bool-cases,
}
use vs2017code.Quotes.Ticks.{
  Ticks, contains, erase, insert_tick, drop_front, receive_tick, receive_message, take_tick, Event,
  received, dealt, after_event, run_events, max_size,
}

-- How often a tick stands in a list.
unfoldable pub times : Bytes → List Bytes → ℕ
times x [] = 0
times x (t ∷ list) = (if bytes_eq t x then 1 else 0) + times x list

times-append : (x : Bytes) (a b : List Bytes) → times x (a ++ b) ≡ times x a + times x b
unfolding times
times-append x [] b = omega arith
times-append x (t ∷ a) b = omega (arith, times-append x a b)

pub contains-times : (x : Bytes) (set : List Bytes) → contains x set ≡ false → times x set ≡ 0
unfolding times contains
contains-times x [] h = refl
contains-times x (t ∷ set) h = ground (arith, contains-times x set)

-- `erase` takes all of one tick and none of another.
times-erase :
    (x y : Bytes) (set : List Bytes)
    → times x (erase y set) ≡ (if bytes_eq y x then 0 else times x set)
unfolding times erase
times-erase x y [] = ground arith
times-erase x y (t ∷ set) = elim (Bool-cases (bytes_eq t y)) [
  | inl h ↦ ground (arith, times-erase x y set, ap (λ u. bytes_eq u x) (bytes_eq_sound t y h))
  | inr h ↦ elim (Bool-cases (bytes_eq y x)) [
    | inl h' ↦ ground (arith, times-erase x y set, ap (bytes_eq t) (bytes_eq_sound y x h'))
    | inr h' ↦ ground (arith, times-erase x y set)
  ]
]

-- The list and the set hold the same ticks, each once, and at most `maxSize` of them.
pub record IsWellFormed (ticks : Ticks) : Type 0 where
  pub bounded : length ticks.list ≤ max_size
  pub agree : (x : Bytes) → times x ticks.list ≡ times x ticks.set
  pub once : (x : Bytes) → times x ticks.list ≤ 1

insert_tick-IsWellFormed :
    (body : Bytes) (ticks : Ticks)
    → IsWellFormed ticks
    → ((x : Bytes) → times x (insert_tick body ticks).list ≡ times x (insert_tick body ticks).set)
      × ((x : Bytes) → times x (insert_tick body ticks).list ≤ 1)
      × (length (insert_tick body ticks).list ≤ suc max_size)
unfolding insert_tick times
insert_tick-IsWellFormed body ticks w = elim (Bool-cases (contains body ticks.set)) [
  | inl h ↦ rw (h) (w.agree, w.once, omega (arith, w.bounded))
  | inr h ↦ rw (h) (
    (λ x. omega (arith, w.agree x, times-append x ticks.list (body ∷ []))),
    (λ x. once_more x h),
    omega (arith, w.bounded, length-append ticks.list (body ∷ [])),
  )
]
  where
    once_more :
        (x : Bytes) → contains body ticks.set ≡ false → times x (ticks.list ++ body ∷ []) ≤ 1
    once_more x h = elim (Bool-cases (bytes_eq body x)) [
      | inl same ↦
          let none_there : times x ticks.set ≡ 0 =
            ap (λ u. times u ticks.set) (sym (bytes_eq_sound body x same))
            ∙ contains-times body ticks.set h in
          ground (arith, w.agree x, times-append x ticks.list (body ∷ []))
      | inr other ↦ ground (arith, w.once x, times-append x ticks.list (body ∷ []))
    ]

drop_front-IsWellFormed :
    (list set : List Bytes)
    → ((x : Bytes) → times x list ≡ times x set)
    → ((x : Bytes) → times x list ≤ 1)
    → length list ≤ suc max_size
    → IsWellFormed (drop_front (record { list = list; set = set }))
unfolding drop_front times
drop_front-IsWellFormed [] set agree once size = record {
  bounded = omega arith;
  agree = agree;
  once = once;
}
drop_front-IsWellFormed (t ∷ list) set agree once size = record {
  bounded = omega arith;
  agree = λ x. ground (arith, agree x, once x, times-erase x t set);
  once = λ x. ground (arith, once x);
}

receive_tick-IsWellFormed :
    (body : Bytes) (ticks : Ticks) → IsWellFormed ticks → IsWellFormed (receive_tick body ticks)
unfolding receive_tick
receive_tick-IsWellFormed body ticks w =
    let (agree, once, size) = insert_tick-IsWellFormed body ticks w in
    let added : Ticks = insert_tick body ticks in
    elim (Bool-cases (ltb max_size (length added.list))) [
      | inl above ↦ rw (above) (drop_front-IsWellFormed added.list added.set agree once size)
      | inr within ↦ rw (within) (record { bounded = ground arith; agree = agree; once = once })
    ]

receive_message_outcome :
    (message : Bytes) (ticks : Ticks)
    → (receive_message message ticks ≡ ticks)
      ⊎ (receive_message message ticks ≡ receive_tick (drop 12 message) ticks)
unfolding receive_message
receive_message_outcome message ticks = ground arith

take_tick_outcome :
    (ticks : Ticks) → ((take_tick ticks).1 ≡ ticks) ⊎ ((take_tick ticks).1 ≡ drop_front ticks)
unfolding take_tick
take_tick_outcome ticks = ground arith

receive_message-IsWellFormed :
    (message : Bytes) (ticks : Ticks)
    → IsWellFormed ticks
    → IsWellFormed (receive_message message ticks)
receive_message-IsWellFormed message ticks w = elim (receive_message_outcome message ticks) [
  | inl same ↦ rw (same) w
  | inr new ↦ rw (new) (receive_tick-IsWellFormed (drop 12 message) ticks w)
]

take_tick-IsWellFormed : (ticks : Ticks) → IsWellFormed ticks → IsWellFormed (take_tick ticks).1
take_tick-IsWellFormed ticks w = elim (take_tick_outcome ticks) [
  | inl same ↦ rw (same) w
  | inr dropped ↦
      rw (dropped)
        (drop_front-IsWellFormed ticks.list ticks.set w.agree w.once (omega (arith, w.bounded)))
]

-- Whatever messages arrive and whenever dealMessage takes a tick, the list and the set of pending
-- ticks hold the same ticks, each at most once, and at most 5000 of them.
pub run_events-IsWellFormed : (events : List Event) → IsWellFormed (run_events events)
unfolding run_events after_event times
run_events-IsWellFormed [] = record {
  bounded = omega arith;
  agree = λ x. refl;
  once = λ x. omega arith;
}
run_events-IsWellFormed (received message ∷ earlier) =
    receive_message-IsWellFormed message (run_events earlier) (run_events-IsWellFormed earlier)
run_events-IsWellFormed (dealt ∷ earlier) =
    take_tick-IsWellFormed (run_events earlier) (run_events-IsWellFormed earlier)
