-- ===== src/Quotes/Deal.antt =====
-- dealMessage of quote_client/quote_client/utils.cc: one round of its loop takes a tick apart, updates
-- the three windows of its contract, and queues a result. The locks are held to the end of a round.
-- Arithmetic on `double` and `mktime` are the parameter `Numbers`.
pub mod Windows
pub mod Results
pub mod Malformed
use vs2017code.Base.{
  ℕ, Bytes, codes, Bool, true, false, List, [], ◌∷◌, ◌++◌, Option, none, some, ◌==◌, ◌||◌, bytes_eq,
  get_elem?, c_string, if◌then◌else◌,
}
use vs2017code.Base.Chain.{◌>>=◌}
use vs2017code.Pool.Config.{extract}
use vs2017code.Quotes.Packet.{Quote}
use vs2017code.Quotes.Ticks.{Ticks, take_tick}
use vs2017code.Quotes.TradeTime.{BrokenTime, broken_time}
use vs2017code.Quotes.Window.{update_window}

-- `stod` is none when it throws. `fixed_text` is what `<<` writes with `fixed` and two digits,
-- `stream_text` without, and `stream_value` what `>>` reads. The times are not before 1970: a `time_t`
-- is the number of its seconds.
pub record Numbers : Type 1 where
  pub Price : Type 0
  pub stod : Bytes → Option Price
  pub minus : Price → Price → Price
  pub divided_by : Price → Price → Price
  pub times : Price → Price → Price
  pub hundred : Price
  pub zero_price : Price
  pub is_zero : Price → Bool
  pub fixed_text : Price → Bytes
  pub stream_value : Bytes → Price
  pub stream_text : Price → Bytes
  pub mktime : BrokenTime → ℕ

-- What a round comes to: it ends, it does something undefined, or an exception ends the program.
pub data Outcome (A : Type 0) : Type 0 where
  done : A → Outcome A
  undefined : Outcome A
  thrown : Outcome A

add_token : Bytes → List Bytes → List Bytes
add_token [] tokens = tokens
add_token (c ∷ token) tokens = (c ∷ token) ∷ tokens

-- The characters in front of the first '|', and the tokens behind it.
unfoldable pub split_tokens : Bytes → Bytes × List Bytes
unfolding add_token
split_tokens [] = ([], [])
split_tokens (c ∷ text) =
    let (token, tokens) = split_tokens text in
    if c == 124 then ([], add_token token tokens) else (c ∷ token, tokens)

-- The tokens that `strtok` gives with "|".
unfoldable pub strtok_all : Bytes → List Bytes
unfolding split_tokens add_token
strtok_all text = let (token, tokens) = split_tokens (c_string text) in add_token token tokens

-- The elements of `strVec` that are used: 1 to 4, and 10.
pub record Fields : Type 0 where
  pub commodity : Bytes
  pub contract_no : Bytes
  pub exchange : Bytes
  pub time_text : Bytes
  pub price_text : Bytes

-- `none` when an index is out of range.
unfoldable pub tick_fields : Bytes → Option Fields
unfolding strtok_all
tick_fields text =
    let texts = strtok_all text in
    do
      commodity ← get_elem? texts 1
      contract_no ← get_elem? texts 2
      exchange ← get_elem? texts 3
      time_text ← get_elem? texts 4
      price_text ← get_elem? texts 10
      some (record {
        commodity = commodity;
        contract_no = contract_no;
        exchange = exchange;
        time_text = time_text;
        price_text = price_text;
      })

module _ (n : Numbers) where
  -- A tick with its time and price read.
  pub record Tick : Type 0 where
    pub commodity : Bytes
    pub contract_no : Bytes
    pub exchange : Bytes
    pub time : ℕ
    pub price : n.Price

  unfoldable pub read_tick : Bytes → Outcome Tick
  unfolding tick_fields broken_time
  read_tick text = elim (tick_fields text) [
    | none ↦ undefined
    | some f ↦ elim (broken_time f.time_text) [
      | none ↦ undefined
      | some time ↦ elim (n.stod f.price_text) [
        | none ↦ thrown
        | some price ↦ done (record {
          commodity = f.commodity;
          contract_no = f.contract_no;
          exchange = f.exchange;
          time = n.mktime time;
          price = price;
        })
      ]
    ]
  ]

  -- `str`.
  abbrev pub contract : Tick → Bytes
  contract tick = tick.commodity ++ tick.contract_no ++ tick.exchange

  -- `round` of utils.cc.
  unfoldable pub round : n.Price → n.Price
  round price = n.stream_value (n.fixed_text price)

  -- The change from an old price, in percent.
  unfoldable pub change : n.Price → n.Price → n.Price
  unfolding round
  change new old =
      let percent = round (n.times (n.divided_by (n.minus new old) old) n.hundred) in
      if n.is_zero percent then n.zero_price else percent

  -- `queueMap`: its keys and their queues.
  abbrev pub QueueMap : Type 0
  QueueMap = List (Bytes × List (ℕ × n.Price))

  unfoldable pub has_key : Bytes → QueueMap → Bool
  has_key key [] = false
  has_key key (entry ∷ queues) = bytes_eq entry.0 key || has_key key queues

  -- `insert`, which leaves a key that is there as it is.
  unfoldable pub insert_queue : Bytes → QueueMap → QueueMap
  unfolding has_key
  insert_queue key queues = if has_key key queues then queues else (key, []) ∷ queues

  -- `queueMap[key]`: a missing key has an empty queue.
  unfoldable pub queue_of : Bytes → QueueMap → List (ℕ × n.Price)
  queue_of key [] = []
  queue_of key (entry ∷ queues) =
      let rest = queue_of key queues in if bytes_eq entry.0 key then entry.1 else rest

  unfoldable pub store_queue : Bytes → List (ℕ × n.Price) → QueueMap → QueueMap
  store_queue key queue [] = (key, queue) ∷ []
  store_queue key queue (entry ∷ queues) =
      let rest = store_queue key queue queues in
      if bytes_eq entry.0 key then (key, queue) ∷ queues else entry ∷ rest

  -- `front().second` of a queue to which the price has just been pushed.
  unfoldable pub front_price : n.Price → List (ℕ × n.Price) → n.Price
  front_price price [] = price
  front_price price (entry ∷ queue) = entry.1

  -- A key's new window, and the change from the price in front of it.
  unfoldable pub deal_window : Bytes → ℕ → Tick → QueueMap → n.Price × QueueMap
  unfolding change front_price queue_of store_queue
  deal_window key limit tick queues =
      let updated =
        store_queue key (update_window limit tick.time tick.price (queue_of key queues)) queues in
      (change tick.price (front_price tick.price (queue_of key updated)), updated)

  abbrev pub key1 : Tick → Bytes
  key1 tick = contract tick ++ codes "1"

  abbrev pub key3 : Tick → Bytes
  key3 tick = contract tick ++ codes "3"

  abbrev pub key5 : Tick → Bytes
  key5 tick = contract tick ++ codes "5"

  -- The three queues of a contract that is new.
  unfoldable pub create_queues : Tick → QueueMap → QueueMap
  unfolding has_key insert_queue
  create_queues tick queues =
      if has_key (key1 tick) queues
      then queues
      else insert_queue (key5 tick) (insert_queue (key3 tick) (insert_queue (key1 tick) queues))

  -- The queues, what `ss` of one thread holds unread, its variable `resStr`, and `resQue`.
  pub record Dealer : Type 0 where
    pub queues : QueueMap
    pub stream : Bytes
    pub res_str : Bytes
    pub results : List Quote

  -- What is written to `ss` for a tick.
  unfoldable pub quote_text : Tick → n.Price → n.Price → n.Price → Bytes
  quote_text tick change1 change3 change5 =
      tick.commodity
      ++ (codes "|"
          ++ (tick.contract_no
              ++ (codes "|"
                  ++ (tick.exchange
                      ++ (codes "|"
                          ++ (n.stream_text change1
                              ++ (codes "|"
                                  ++ (n.stream_text change3
                                      ++ (codes "|" ++ n.stream_text change5)))))))))

  -- `ss << ...; ss >> resStr; resQue.push(res)`, for a text.
  unfoldable pub push_result : Tick → Bytes → Dealer → Dealer
  push_result tick text dealer =
      let (word, rest) = extract dealer.res_str (dealer.stream ++ text) in
      record dealer {
        stream = rest;
        res_str = word;
        results =
            dealer.results
            ++ record {
              commodity = tick.commodity;
              contract_no = tick.contract_no;
              exchange = tick.exchange;
              res_str = word;
            }
              ∷ [];
      }

  unfoldable pub deal_tick : Tick → Dealer → Dealer
  unfolding create_queues deal_window quote_text push_result
  deal_tick tick dealer =
      let (change1, queues1) = deal_window (key1 tick) 60 tick (create_queues tick dealer.queues) in
      let (change3, queues3) = deal_window (key3 tick) 180 tick queues1 in
      let (change5, queues5) = deal_window (key5 tick) 300 tick queues3 in
      push_result tick (quote_text tick change1 change3 change5)
        (record dealer { queues = queues5 })

  -- The queues after some ticks, the last one first; all is empty at the start.
  unfoldable pub deal_all : List Tick → Dealer
  unfolding deal_tick
  deal_all [] = record { queues = []; stream = []; res_str = []; results = [] }
  deal_all (tick ∷ earlier) = deal_tick tick (deal_all earlier)

  -- The times and prices of a contract's trades among some ticks.
  unfoldable pub trades : Bytes → List Tick → List (ℕ × n.Price)
  trades name [] = []
  trades name (tick ∷ earlier) =
      let rest = trades name earlier in
      if bytes_eq (contract tick) name then (tick.time, tick.price) ∷ rest else rest

  -- A round behind its taking of a tick.
  unfoldable pub deal_taken : Option Bytes × Ticks → Dealer → Outcome (Ticks × Dealer)
  unfolding read_tick deal_tick
  deal_taken (none, left) dealer = done (left, dealer)
  deal_taken (some text, left) dealer = elim (read_tick text) [
    | done tick ↦ done (left, deal_tick tick dealer)
    | undefined ↦ undefined
    | thrown ↦ thrown
  ]

  -- One round of the loop.
  unfoldable pub deal_round : Ticks → Dealer → Outcome (Ticks × Dealer)
  unfolding deal_taken
  deal_round ticks dealer = deal_taken (take_tick ticks) dealer
