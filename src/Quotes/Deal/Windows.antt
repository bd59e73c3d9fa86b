-- ===== src/Quotes/Deal/Windows.antt =====
-- What the queues of dealMessage hold: the windows of each contract.
use vs2017code.Base.{
  ℕ, ◌≡◌, refl, sym, ap, ◌∙◌, arith, Bytes, codes, Bool, true, false, List, [], ◌∷◌, ◌++◌, ◌==◌,
  ◌&&◌, bytes_eq, bytes_eq_sound, Bool-cases, inl, inr, if◌then◌else◌,
}
use vs2017code.Quotes.Window.{update_window, window}
use vs2017code.Quotes.Deal.{
  Numbers, Tick, Dealer, QueueMap, contract, has_key, insert_queue, queue_of, store_queue,
  deal_window, create_queues, push_result, deal_tick, deal_all, trades, key1, key3, key5,
}

bytes_eq-append_last :
    (s t : Bytes) (c d : ℕ) → bytes_eq (s ++ c ∷ []) (t ++ d ∷ []) ≡ (bytes_eq s t && c == d)
unfolding bytes_eq
bytes_eq-append_last [] [] c d = ground arith
bytes_eq-append_last [] (e ∷ []) c d = ground arith
bytes_eq-append_last [] (e ∷ f ∷ t) c d = ground arith
bytes_eq-append_last (e ∷ []) [] c d = ground arith
bytes_eq-append_last (e ∷ f ∷ s) [] c d = ground arith
bytes_eq-append_last (e ∷ s) (f ∷ t) c d = ground (arith, bytes_eq-append_last s t c d)

bytes_eq_left : (s t u : Bytes) → bytes_eq s t ≡ true → bytes_eq s u ≡ bytes_eq t u
bytes_eq_left s t u h = ap (λ x. bytes_eq x u) (bytes_eq_sound s t h)

bytes_eq_right : (s t u : Bytes) → bytes_eq s t ≡ true → bytes_eq u s ≡ bytes_eq u t
bytes_eq_right s t u h = ap (λ x. bytes_eq u x) (bytes_eq_sound s t h)

bytes_eq_sym : (s t : Bytes) → bytes_eq s t ≡ bytes_eq t s
unfolding bytes_eq
bytes_eq_sym [] [] = refl
bytes_eq_sym [] (d ∷ t) = refl
bytes_eq_sym (c ∷ s) [] = refl
bytes_eq_sym (c ∷ s) (d ∷ t) = ground (arith, bytes_eq_sym s t)

module _ (n : Numbers) where
  pub queue_of-store_queue :
      (key other : Bytes) (queue : List (ℕ × n.Price)) (queues : QueueMap n)
      → queue_of n key (store_queue n other queue queues)
        ≡ (if bytes_eq other key then queue else queue_of n key queues)
  unfolding queue_of store_queue
  queue_of-store_queue key other queue [] = refl
  queue_of-store_queue key other queue (entry ∷ queues) =
      elim (Bool-cases (bytes_eq entry.0 other)) [
        | inl same ↦ ground (arith, bytes_eq_left entry.0 other key same)
        | inr apart ↦ elim (Bool-cases (bytes_eq entry.0 key)) [
          | inl here ↦ ground (
            arith,
            queue_of-store_queue key other queue queues,
            bytes_eq_right entry.0 key other here,
            bytes_eq_left entry.0 key other here,
            bytes_eq_sym key other,
          )
          | inr elsewhere ↦ ground (arith, queue_of-store_queue key other queue queues)
        ]
      ]

  queue_of_missing :
      (key : Bytes) (queues : QueueMap n)
      → has_key n key queues ≡ false
      → queue_of n key queues ≡ []
  unfolding has_key queue_of
  queue_of_missing key [] h = refl
  queue_of_missing key (entry ∷ queues) h = ground (arith, queue_of_missing key queues)

  queue_of-insert_queue :
      (key other : Bytes) (queues : QueueMap n)
      → queue_of n key (insert_queue n other queues) ≡ queue_of n key queues
  unfolding insert_queue queue_of
  queue_of-insert_queue key other queues = elim (Bool-cases (has_key n other queues)) [
    | inl present ↦ ground arith
    | inr missing ↦ elim (Bool-cases (bytes_eq other key)) [
      | inl same ↦
          let none_yet : queue_of n key queues ≡ [] =
            rw (sym (bytes_eq_sound other key same)) (queue_of_missing other queues missing) in
          ground (arith, none_yet)
      | inr apart ↦ ground arith
    ]
  ]

  queue_of-if :
      (b : Bool) (key : Bytes) (queues other : QueueMap n)
      → queue_of n key other ≡ queue_of n key queues
      → queue_of n key (if b then queues else other) ≡ queue_of n key queues
  queue_of-if true key queues other h = refl
  queue_of-if false key queues other h = h

  queue_of-create_queues :
      (key : Bytes) (tick : Tick n) (queues : QueueMap n)
      → queue_of n key (create_queues n tick queues) ≡ queue_of n key queues
  unfolding create_queues
  queue_of-create_queues key tick queues =
      let with1 : QueueMap n = insert_queue n (key1 n tick) queues in
      let with3 : QueueMap n = insert_queue n (key3 n tick) with1 in
      queue_of-if (has_key n (key1 n tick) queues) key queues (insert_queue n (key5 n tick) with3) (
        queue_of-insert_queue key (key5 n tick) with3
        ∙ queue_of-insert_queue key (key3 n tick) with1
        ∙ queue_of-insert_queue key (key1 n tick) queues)

  queue_of-deal_window :
      (s : Bytes) (c d limit : ℕ) (tick : Tick n) (queues : QueueMap n)
      → queue_of n (s ++ c ∷ []) (deal_window n (contract n tick ++ d ∷ []) limit tick queues).1 ≡ (
          if bytes_eq (contract n tick) s && d == c
          then update_window limit tick.time tick.price
              (queue_of n (contract n tick ++ d ∷ []) queues)
          else queue_of n (s ++ c ∷ []) queues)
  unfolding deal_window
  queue_of-deal_window s c d limit tick queues =
      queue_of-store_queue (s ++ c ∷ []) (contract n tick ++ d ∷ [])
        (update_window limit tick.time tick.price (queue_of n (contract n tick ++ d ∷ []) queues))
        queues
      ∙ rw (bytes_eq-append_last (contract n tick) s d c) refl

  -- The queues after the three windows of a tick.
  queues_after : Tick n → QueueMap n → QueueMap n
  queues_after tick queues =
      (deal_window n (key5 n tick) 300 tick
        (deal_window n (key3 n tick) 180 tick
          (deal_window n (key1 n tick) 60 tick (create_queues n tick queues)).1).1).1

  -- What a tick does to a queue of the contract with a name.
  after : ℕ → Tick n → Bytes → List (ℕ × n.Price) → List (ℕ × n.Price)
  after limit tick s queue =
      if bytes_eq (contract n tick) s then update_window limit tick.time tick.price queue else queue

  queue_of_other :
      (s : Bytes) (c d limit : ℕ) (tick : Tick n) (queues : QueueMap n)
      → (d == c) ≡ false
      → queue_of n (s ++ c ∷ []) (deal_window n (contract n tick ++ d ∷ []) limit tick queues).1
        ≡ queue_of n (s ++ c ∷ []) queues
  queue_of_other s c d limit tick queues apart =
      ground (arith, queue_of-deal_window s c d limit tick queues)

  queue_of_same :
      (s : Bytes) (c limit : ℕ) (tick : Tick n) (queues : QueueMap n)
      → queue_of n (s ++ c ∷ []) (deal_window n (contract n tick ++ c ∷ []) limit tick queues).1
        ≡ after limit tick s (queue_of n (s ++ c ∷ []) queues)
  unfolding after
  queue_of_same s c limit tick queues = elim (Bool-cases (bytes_eq (contract n tick) s)) [
    | inl same ↦
        let path : queue_of n (contract n tick ++ c ∷ []) queues ≡ queue_of n (s ++ c ∷ []) queues =
          ap (λ t. queue_of n (t ++ c ∷ []) queues) (bytes_eq_sound (contract n tick) s same) in
        ground (arith, queue_of-deal_window s c c limit tick queues)
    | inr apart ↦ ground (arith, queue_of-deal_window s c c limit tick queues)
  ]

  module _ (tick : Tick n) (queues : QueueMap n) where
    abbrev pub queues0 : QueueMap n
    queues0 = create_queues n tick queues

    abbrev pub queues1 : QueueMap n
    queues1 = (deal_window n (key1 n tick) 60 tick queues0).1

    abbrev pub queues3 : QueueMap n
    queues3 = (deal_window n (key3 n tick) 180 tick queues1).1

    module _ (s : Bytes) where
      queue1_after :
          queue_of n (s ++ codes "1") (queues_after tick queues)
          ≡ after 60 tick s (queue_of n (s ++ codes "1") queues)
      unfolding queues_after
      queue1_after =
          queue_of_other s 49 53 300 tick queues3 refl
          ∙ queue_of_other s 49 51 180 tick queues1 refl
          ∙ queue_of_same s 49 60 tick queues0
          ∙ ap (after 60 tick s) (queue_of-create_queues (s ++ codes "1") tick queues)

      queue3_after :
          queue_of n (s ++ codes "3") (queues_after tick queues)
          ≡ after 180 tick s (queue_of n (s ++ codes "3") queues)
      unfolding queues_after
      queue3_after =
          queue_of_other s 51 53 300 tick queues3 refl
          ∙ queue_of_same s 51 180 tick queues1
          ∙ ap (after 180 tick s) (
              queue_of_other s 51 49 60 tick queues0 refl
              ∙ queue_of-create_queues (s ++ codes "3") tick queues)

      queue5_after :
          queue_of n (s ++ codes "5") (queues_after tick queues)
          ≡ after 300 tick s (queue_of n (s ++ codes "5") queues)
      unfolding queues_after
      queue5_after =
          queue_of_same s 53 300 tick queues3
          ∙ ap (after 300 tick s) (
              queue_of_other s 53 51 180 tick queues1 refl
              ∙ queue_of_other s 53 49 60 tick queues0 refl
              ∙ queue_of-create_queues (s ++ codes "5") tick queues)

    -- A window of a contract is as it was until its own update.
    pub queue1_before : queue_of n (key1 n tick) queues0 ≡ queue_of n (key1 n tick) queues
    queue1_before = queue_of-create_queues (key1 n tick) tick queues

    pub queue3_before : queue_of n (key3 n tick) queues1 ≡ queue_of n (key3 n tick) queues
    queue3_before =
        queue_of_other (contract n tick) 51 49 60 tick queues0 refl
        ∙ queue_of-create_queues (key3 n tick) tick queues

    pub queue5_before : queue_of n (key5 n tick) queues3 ≡ queue_of n (key5 n tick) queues
    queue5_before =
        queue_of_other (contract n tick) 53 51 180 tick queues1 refl
        ∙ queue_of_other (contract n tick) 53 49 60 tick queues0 refl
        ∙ queue_of-create_queues (key5 n tick) tick queues

  window-trades :
      (limit : ℕ) (s : Bytes) (tick : Tick n) (earlier : List (Tick n))
      → window limit (trades n s (tick ∷ earlier))
        ≡ after limit tick s (window limit (trades n s earlier))
  unfolding trades after window
  window-trades limit s tick earlier = elim (Bool-cases (bytes_eq (contract n tick) s)) [
    | inl same ↦ rw (same) refl
    | inr apart ↦ rw (apart) refl
  ]

  queues-deal_tick :
      (tick : Tick n) (dealer : Dealer n)
      → (deal_tick n tick dealer).queues ≡ queues_after tick dealer.queues
  unfolding deal_tick queues_after push_result
  queues-deal_tick tick dealer = refl

  -- After any ticks, the three queues of a name are the windows of 60, 180 and 300 seconds of the
  -- trades whose commodity, contract number and exchange, put together, are that name.
  pub deal_all-windows :
      (name : Bytes) (ticks : List (Tick n))
      → (queue_of n (name ++ codes "1") (deal_all n ticks).queues ≡ window 60 (trades n name ticks))
        × ((queue_of n (name ++ codes "3") (deal_all n ticks).queues
              ≡ window 180 (trades n name ticks))
            × (queue_of n (name ++ codes "5") (deal_all n ticks).queues
                ≡ window 300 (trades n name ticks)))
  unfolding deal_all trades queue_of window
  deal_all-windows name [] = (refl, (refl, refl))
  deal_all-windows name (tick ∷ earlier) =
      let (ih1, (ih3, ih5)) = deal_all-windows name earlier in
      let queues : QueueMap n = (deal_all n earlier).queues in
      let step : (deal_all n (tick ∷ earlier)).queues ≡ queues_after tick queues =
        queues-deal_tick tick (deal_all n earlier) in
      (
        rw (step) (
            queue1_after tick queues name
            ∙ ap (after 60 tick name) ih1
            ∙ sym (window-trades 60 name tick earlier)),
        (
          rw (step) (
              queue3_after tick queues name
              ∙ ap (after 180 tick name) ih3
              ∙ sym (window-trades 180 name tick earlier)),
          rw (step) (
              queue5_after tick queues name
              ∙ ap (after 300 tick name) ih5
              ∙ sym (window-trades 300 name tick earlier)),
        ),
      )
