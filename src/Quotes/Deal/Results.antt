-- ===== src/Quotes/Deal/Results.antt =====
-- The results that dealMessage queues.
use vs2017code.Base.{
  ℕ, ◌+◌, ◌≡◌, refl, ap, ◌∙◌, arith, Bytes, codes, false, List, [], ◌∷◌, ◌++◌, append_assoc, some,
  ltb, bytes_eq_refl, Bool-cases, inl, inr, if◌then◌else◌, All, All-append,
}
use vs2017code.Pool.Config.{is_blank, extract}
use vs2017code.Pool.Config.RoundTrip.{IsWord, extract_word}
use vs2017code.Quotes.Packet.{Quote}
use vs2017code.Quotes.Ticks.{Ticks, take_tick}
use vs2017code.Quotes.Window.{update_window, window, within, InOrder, window_lem, within_last}
use vs2017code.Quotes.Deal.{
  Numbers, done, Tick, Dealer, QueueMap, contract, change, queue_of, store_queue, front_price,
  deal_window, create_queues, quote_text, push_result, deal_tick, deal_all, trades, read_tick,
  deal_taken, deal_round, key1, key3, key5,
}
use vs2017code.Quotes.Deal.Windows.{
  queue_of-store_queue, queue1_before, queue3_before, queue5_before, queues0, deal_all-windows,
}

abbrev pub HasNoBlank : Bytes → Type 0
HasNoBlank text = All (λ c. is_blank c ≡ false) text

pipe-HasNoBlank : HasNoBlank (codes "|")
pipe-HasNoBlank = (refl, tt)

append-HasNoBlank : (s t : Bytes) → HasNoBlank s → HasNoBlank t → HasNoBlank (s ++ (codes "|" ++ t))
append-HasNoBlank s t hs ht = All-append (λ c. is_blank c ≡ false) s (codes "|" ++ t) hs (refl, ht)

joined-IsWord : (s t : Bytes) → HasNoBlank s → HasNoBlank t → IsWord (s ++ (codes "|" ++ t))
joined-IsWord [] t hs ht = ((λ h. cc), append-HasNoBlank [] t hs ht)
joined-IsWord (c ∷ s) t hs ht = ((λ h. cc), append-HasNoBlank (c ∷ s) t hs ht)

module _ {Price : Type 0} where
  -- The first price of the trades that are at most the limit before a time; the last one is first.
  unfoldable pub earliest : ℕ → ℕ → Price → List (ℕ × Price) → Price
  earliest limit now price [] = price
  earliest limit now price (trade ∷ earlier) =
      earliest limit now (if ltb (trade.0 + limit) now then price else trade.1) earlier

module _ (n : Numbers) where
  front_price-within :
      (limit now : ℕ) (price : n.Price) (last : ℕ × n.Price) (queue past : List (ℕ × n.Price))
      → front_price n price (within limit now past ++ last ∷ queue) ≡ earliest limit now last.1 past
  unfolding front_price within earliest
  front_price-within limit now price last queue [] = refl
  front_price-within limit now price last queue (trade ∷ past) =
      elim (Bool-cases (ltb (trade.0 + limit) now)) [
        | inl old ↦ rw (old) (front_price-within limit now price last queue past)
        | inr young ↦
            rw (young, append_assoc) (front_price-within limit now price trade (last ∷ queue) past)
      ]

  -- The change that a window gives, when its queue is the window of some trades in order.
  change-deal_window :
      (key : Bytes) (limit : ℕ) (tick : Tick n) (queues : QueueMap n) (past : List (ℕ × n.Price))
      → queue_of n key queues ≡ window limit past
      → InOrder tick.time past
      → (deal_window n key limit tick queues).0
        ≡ change n tick.price (earliest limit tick.time tick.price past)
  unfolding deal_window window
  change-deal_window key limit tick queues past held order =
      let pushed : List (ℕ × n.Price) =
        update_window limit tick.time tick.price (queue_of n key queues) in
      let stored : queue_of n key (store_queue n key pushed queues) ≡ pushed =
        queue_of-store_queue n key key pushed queues ∙ rw (bytes_eq_refl key) refl in
      let kept : pushed ≡ within limit tick.time past ++ (tick.time, tick.price) ∷ [] =
        ap (update_window limit tick.time tick.price) held
        ∙ window_lem limit tick.time (tick.time, tick.price) past ((omega arith), order)
        ∙ within_last limit (tick.time, tick.price) past in
      ap (λ q. change n tick.price (front_price n tick.price q)) (stored ∙ kept)
      ∙ ap (change n tick.price)
          (front_price-within limit tick.time tick.price (tick.time, tick.price) [] past)

  -- The change of a tick's price over a time, after some trades of its contract.
  unfoldable pub change_over : ℕ → Tick n → List (ℕ × n.Price) → n.Price
  change_over limit tick past = change n tick.price (earliest limit tick.time tick.price past)

  -- What is queued for a tick, after some others.
  unfoldable pub quote_of : Tick n → List (Tick n) → Quote
  unfolding change_over
  quote_of tick earlier =
      let past = trades n (contract n tick) earlier in
      record {
        commodity = tick.commodity;
        contract_no = tick.contract_no;
        exchange = tick.exchange;
        res_str =
            quote_text n tick (change_over 60 tick past) (change_over 180 tick past)
              (change_over 300 tick past);
      }

  -- A tick whose names have no blank.
  pub record IsPlain (tick : Tick n) : Type 0 where
    pub plain_commodity : HasNoBlank tick.commodity
    pub plain_contract_no : HasNoBlank tick.contract_no
    pub plain_exchange : HasNoBlank tick.exchange

  module _ (plain_numbers : (price : n.Price) → HasNoBlank (n.stream_text price)) where
    quote_text-IsWord :
        (tick : Tick n) (a b c : n.Price) → IsPlain tick → IsWord (quote_text n tick a b c)
    unfolding quote_text
    quote_text-IsWord tick a b c plain =
        let changes5 : Bytes = n.stream_text c in
        let changes3 : Bytes = n.stream_text b ++ (codes "|" ++ changes5) in
        let changes1 : Bytes = n.stream_text a ++ (codes "|" ++ changes3) in
        let behind_exchange : Bytes = tick.exchange ++ (codes "|" ++ changes1) in
        joined-IsWord tick.commodity (tick.contract_no ++ (codes "|" ++ behind_exchange))
          plain.plain_commodity
          (append-HasNoBlank tick.contract_no behind_exchange plain.plain_contract_no (
            append-HasNoBlank tick.exchange changes1 plain.plain_exchange (
              append-HasNoBlank (n.stream_text a) changes3 (plain_numbers a) (
                append-HasNoBlank (n.stream_text b) changes5 (plain_numbers b) (plain_numbers c)))))

    push_result_word :
        (tick : Tick n) (text : Bytes) (dealer : Dealer n)
        → dealer.stream ≡ []
        → IsWord text
        → ((push_result n tick text dealer).stream ≡ [])
          × ((push_result n tick text dealer).results
              ≡ dealer.results
                ++ record {
                  commodity = tick.commodity;
                  contract_no = tick.contract_no;
                  exchange = tick.exchange;
                  res_str = text;
                }
                  ∷ [])
    unfolding push_result
    push_result_word tick text dealer empty word =
        let read : extract dealer.res_str (dealer.stream ++ text) ≡ (text, []) =
          ap (λ s. extract dealer.res_str (s ++ text)) empty
          ∙ extract_word dealer.res_str text word in
        (
          ap (λ (r : Bytes × Bytes). r.1) read,
          ap
              (λ (r : Bytes × Bytes).
                dealer.results
                ++ record {
                  commodity = tick.commodity;
                  contract_no = tick.contract_no;
                  exchange = tick.exchange;
                  res_str = r.0;
                }
                  ∷ [])
              read,
        )

    stream-deal_all : (ticks : List (Tick n)) → All IsPlain ticks → (deal_all n ticks).stream ≡ []
    unfolding deal_all deal_tick
    stream-deal_all [] plain = refl
    stream-deal_all (tick ∷ earlier) plain =
        let before : Dealer n = deal_all n earlier in
        let q0 : QueueMap n = create_queues n tick before.queues in
        let (a, q1) = deal_window n (key1 n tick) 60 tick q0 in
        let (b, q3) = deal_window n (key3 n tick) 180 tick q1 in
        let (c, q5) = deal_window n (key5 n tick) 300 tick q3 in
        (push_result_word tick (quote_text n tick a b c) (record before { queues = q5 })
          (stream-deal_all earlier plain.1) (quote_text-IsWord tick a b c plain.0)).0

    results-deal_all :
        (tick : Tick n) (earlier : List (Tick n))
        → All IsPlain (tick ∷ earlier)
        → InOrder tick.time (trades n (contract n tick) earlier)
        → (deal_all n (tick ∷ earlier)).results
          ≡ (deal_all n earlier).results ++ quote_of tick earlier ∷ []
    unfolding deal_all deal_tick quote_of change_over
    results-deal_all tick earlier plain order =
        let before : Dealer n = deal_all n earlier in
        let past : List (ℕ × n.Price) = trades n (contract n tick) earlier in
        let (w1, (w3, w5)) = deal_all-windows n (contract n tick) earlier in
        let (a, q1) = deal_window n (key1 n tick) 60 tick (queues0 n tick before.queues) in
        let (b, q3) = deal_window n (key3 n tick) 180 tick q1 in
        let (c, q5) = deal_window n (key5 n tick) 300 tick q3 in
        let a_lem : a ≡ change_over 60 tick past =
          change-deal_window (key1 n tick) 60 tick (queues0 n tick before.queues) past
            (queue1_before n tick before.queues ∙ w1) order in
        let b_lem : b ≡ change_over 180 tick past =
          change-deal_window (key3 n tick) 180 tick q1 past
            (queue3_before n tick before.queues ∙ w3) order in
        let c_lem : c ≡ change_over 300 tick past =
          change-deal_window (key5 n tick) 300 tick q3 past
            (queue5_before n tick before.queues ∙ w5) order in
        (push_result_word tick (quote_text n tick a b c) (record before { queues = q5 })
          (stream-deal_all earlier plain.1) (quote_text-IsWord tick a b c plain.0)).1
        ∙ rw (a_lem, b_lem, c_lem) refl

    -- A round that takes a tick with five readable texts queues one result, with its changes from the
    -- earliest prices of its contract of the last 60, 180 and 300 seconds. It holds when the names of
    -- all ticks and the texts of numbers have no blank, and the contract's times never go back.
    pub deal_round_result :
        (ticks left : Ticks) (text : Bytes) (tick : Tick n) (earlier : List (Tick n))
        → take_tick ticks ≡ (some text, left)
        → read_tick n text ≡ done tick
        → All IsPlain (tick ∷ earlier)
        → InOrder tick.time (trades n (contract n tick) earlier)
        → (deal_round n ticks (deal_all n earlier) ≡ done (left, deal_all n (tick ∷ earlier)))
          × ((deal_all n (tick ∷ earlier)).results
              ≡ (deal_all n earlier).results ++ quote_of tick earlier ∷ [])
    unfolding deal_round deal_all
    deal_round_result ticks left text tick earlier taken read plain order = (
      ap (λ r. deal_taken n r (deal_all n earlier)) taken ∙ rw (deal_taken, read) refl,
      results-deal_all tick earlier plain order,
    )
