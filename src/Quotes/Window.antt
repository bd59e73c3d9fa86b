-- ===== src/Quotes/Window.antt =====
-- The windows of the prices of a contract in dealMessage of quote_client/quote_client/utils.cc, of 60,
-- 180 and 300 seconds. A trade time is a number of seconds; `Price` and the change between two prices,
-- with its rounding, are arithmetic on `double`, which is a parameter.
use vs2017code.Base.{
  ℕ, ◌+◌, ◌≤◌, ◌<◌, ◌≡◌, refl, sym, ap, ◌∙◌, arith, true, false, List, [], ◌∷◌, ◌++◌, ltb,
  if◌then◌else◌, inl, inr, Bool-cases,
}

module _ {Price : Type 0} where
  -- `while (!queue.empty() && difftime(tradeTime, queue.front().first) > limit) queue.pop();`
  unfoldable pub expire : ℕ → ℕ → List (ℕ × Price) → List (ℕ × Price)
  expire limit now [] = []
  expire limit now (entry ∷ queue) =
      let rest = expire limit now queue in if ltb (entry.0 + limit) now then rest else entry ∷ queue

  unfoldable pub update_window : ℕ → ℕ → Price → List (ℕ × Price) → List (ℕ × Price)
  unfolding expire
  update_window limit now price queue = expire limit now queue ++ (now, price) ∷ []

  -- The queue after some trades, the last one first.
  unfoldable pub window : ℕ → List (ℕ × Price) → List (ℕ × Price)
  unfolding update_window
  window limit [] = []
  window limit (trade ∷ earlier) = update_window limit trade.0 trade.1 (window limit earlier)

  -- The trades within the limit before a time, the first one first.
  unfoldable pub within : ℕ → ℕ → List (ℕ × Price) → List (ℕ × Price)
  within limit now [] = []
  within limit now (trade ∷ earlier) =
      let rest = within limit now earlier in
      if ltb (trade.0 + limit) now then rest else rest ++ trade ∷ []

  -- No trade is later than the time, and each is no later than the one after it.
  abbrev pub InOrder : ℕ → List (ℕ × Price) → Type 0
  InOrder now [] = Unit
  InOrder now (trade ∷ earlier) = (trade.0 ≤ now) × InOrder trade.0 earlier

  expire-append_old :
      (limit now : ℕ) (queue : List (ℕ × Price)) (trade : ℕ × Price)
      → ltb (trade.0 + limit) now ≡ false
      → expire limit now (queue ++ trade ∷ []) ≡ expire limit now queue ++ trade ∷ []
  unfolding expire
  expire-append_old limit now [] trade h = rw (h) refl
  expire-append_old limit now (e ∷ queue) trade h =
      ground (arith, expire-append_old limit now queue trade h)

  expire-append_all :
      (limit now : ℕ) (queue more : List (ℕ × Price))
      → expire limit now queue ≡ []
      → expire limit now (queue ++ more) ≡ expire limit now more
  unfolding expire
  expire-append_all limit now [] more h = refl
  expire-append_all limit now (e ∷ queue) more h =
      ground (arith, expire-append_all limit now queue more)

  InOrder-later :
      (past now : ℕ) (trades : List (ℕ × Price))
      → past ≤ now
      → InOrder past trades
      → InOrder now trades
  InOrder-later past now [] h order = tt
  InOrder-later past now (trade ∷ trades) h order = (omega (arith, order.0), order.1)

  -- When the last trade is too old, so are the earlier ones.
  within_all_old :
      (limit past now : ℕ) (trades : List (ℕ × Price))
      → past + limit < now
      → InOrder past trades
      → within limit now trades ≡ []
  unfolding within
  within_all_old limit past now [] h order = refl
  within_all_old limit past now (trade ∷ trades) h order =
      let old : ltb (trade.0 + limit) now ≡ true = ground (arith, order.0) in
      rw (within, old) (within_all_old limit trade.0 now trades (omega (arith, order.0)) order.1)

  -- Of trades in order, the queue keeps what is within the limit.
  expire-within :
      (limit past now : ℕ) (trades : List (ℕ × Price))
      → past ≤ now
      → InOrder past trades
      → expire limit now (within limit past trades) ≡ within limit now trades
  unfolding expire within
  expire-within limit past now [] h order = refl
  expire-within limit past now (trade ∷ trades) h order =
      let ih : expire limit now (within limit past trades) ≡ within limit now trades =
        expire-within limit past now trades h (InOrder-later trade.0 past trades order.0 order.1) in
      elim (Bool-cases (ltb (trade.0 + limit) past)) [
        | inl old ↦
            let older : ltb (trade.0 + limit) now ≡ true = ground arith in
            rw (old, older, within) ih
        | inr young ↦ elim (Bool-cases (ltb (trade.0 + limit) now)) [
          | inr younger ↦
              rw (young, younger, within)
                (expire-append_old limit now (within limit past trades) trade younger
                  ∙ ap (λ q. q ++ trade ∷ []) ih)
          | inl older ↦
              let all_old : within limit now trades ≡ [] =
                within_all_old limit trade.0 now trades (ground arith) order.1 in
              let gone : expire limit now (trade ∷ []) ≡ [] = rw (expire, older) refl in
              rw (young, older, within)
                (expire-append_all limit now (within limit past trades) (trade ∷ []) (ih ∙ all_old)
                  ∙ gone
                  ∙ sym all_old)
        ]
      ]

  pub within_last :
      (limit : ℕ) (trade : ℕ × Price) (earlier : List (ℕ × Price))
      → within limit trade.0 (trade ∷ earlier) ≡ within limit trade.0 earlier ++ trade ∷ []
  unfolding within
  within_last limit trade earlier =
      let young : ltb (trade.0 + limit) trade.0 ≡ false = ground arith in rw (young) refl

  window_step :
      (limit : ℕ) (trade : ℕ × Price) (earlier : List (ℕ × Price))
      → window limit (trade ∷ earlier) ≡ expire limit trade.0 (window limit earlier) ++ trade ∷ []
  unfolding window update_window
  window_step limit trade earlier = refl

  -- After trades whose times never go back, the queue holds exactly the trades that are at most the
  -- limit before the last one, the first one in front, and the last one among them.
  pub window_lem :
      (limit now : ℕ) (trade : ℕ × Price) (earlier : List (ℕ × Price))
      → InOrder now (trade ∷ earlier)
      → window limit (trade ∷ earlier) ≡ within limit trade.0 (trade ∷ earlier)
  unfolding window within expire
  window_lem limit now trade [] order =
      window_step limit trade [] ∙ sym (within_last limit trade [])
  window_lem limit now trade (next ∷ earlier) order =
      window_step limit trade (next ∷ earlier)
      ∙ ap (λ q. expire limit trade.0 q ++ trade ∷ [])
          (window_lem limit trade.0 next earlier order.1)
      ∙ ap (λ q. q ++ trade ∷ [])
          (expire-within limit next.0 trade.0 (next ∷ earlier) (order.1.0)
            ((omega arith), order.1.1))
      ∙ sym (within_last limit trade (next ∷ earlier))
