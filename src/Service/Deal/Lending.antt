-- ===== src/Service/Deal/Lending.antt =====
-- Whatever the message, a handler that returns has given its connection back, and sends one answer
-- at most.
use mathlib.Core.Path.{subst}
use vs2017code.Base.{
  ℕ, ◌≡◌, ◌⊎◌, inl, inr, refl, arith, Bytes, List, ◌∷◌, [], ◌++◌, Option, some, none, codes,
  bytes_eq, ◌&&◌, Bool-cases,
}
use vs2017code.Framing.Header.{Request, parse_message, send}
use vs2017code.Dblayer.Platform.{Platform}
use vs2017code.Pool.{Pool, Connection, get_one_connect, give_back}
use vs2017code.Service.Result.{Result, done, undefined, unfinished, ◌>>=◌}
use vs2017code.Service.Gzip.{Zlib, is_empty}
use vs2017code.Service.Database.{mysql_query}
use vs2017code.Service.Deal.{
  World, deal_message, deal_request, deal_upload, deal_download, store, look_up, answer,
  send_packed, hand_over, pack, unpack,
}

-- A predicate on the value of a result, where there is one.
abbrev OnDone : {A : Type 0} → (A → Type 0) → Result A → Type 0
OnDone P (done a) = P a
OnDone P undefined = Unit
OnDone P unfinished = Unit

OnDone-bind :
    {A B : Type 0} (P : B → Type 0) (m : Result A) (f : A → Result B)
    → ((a : A) → OnDone P (f a))
    → OnDone P (m >>= f)
OnDone-bind P (done a) f h = h a
OnDone-bind P undefined f h = tt
OnDone-bind P unfinished f h = tt

-- Without a connection the pool is not changed.
nothing_taken : (before after : Pool) → get_one_connect before ≡ (none, after) → after ≡ before
unfolding get_one_connect
nothing_taken before after e = go before.queue refl
  where
    go : (queue : List Connection) → before.queue ≡ queue → after ≡ before
    go [] none_there = ground arith
    go (c ∷ queue) some_there = absurd (ground arith)

module _ (z : Zlib) (p : Platform) (fuel now : ℕ) (stack : Bytes) where
  -- The pool is that of before, or the connection that was taken from it has come back.
  abbrev pub Returned : Pool → Pool → Type 0
  Returned before after =
      (after ≡ before)
      ⊎ ((c : Connection) × (rest : Pool) × (get_one_connect before ≡ (some c, rest))
          × (after ≡ give_back now c rest))

  abbrev pub AnswersOnce : List Bytes → List Bytes → Type 0
  AnswersOnce before after = (after ≡ before) ⊎ ((bytes : Bytes) × (after ≡ before ++ bytes ∷ []))

  abbrev Keeps : World p → World p → Type 0
  Keeps before after = Returned before.pool after.pool × AnswersOnce before.sent after.sent

  -- The part after the query, which leaves the pool alone.
  abbrev Answered : World p → World p → Type 0
  Answered before after = (after.pool ≡ before.pool) × AnswersOnce before.sent after.sent

  hand_over-Answered :
      (w : World p) (bytes : Option Bytes) → OnDone (Answered w) (hand_over z p w bytes)
  unfolding hand_over
  hand_over-Answered w none = tt
  hand_over-Answered w (some bytes) = (refl, inr (bytes, refl))

  send_packed-Answered :
      (user_name : Bytes) (w : World p) (body : Option Bytes)
      → OnDone (Answered w) (send_packed z p stack user_name w body)
  unfolding send_packed
  send_packed-Answered user_name w none = (refl, inl refl)
  send_packed-Answered user_name w (some body) =
      hand_over-Answered w (send stack (codes "RSDPJ") (codes "GZIP") user_name body)

  answer-Answered :
      (user_name content : Bytes) (w : World p)
      → OnDone (Answered w) (answer z p fuel stack user_name content w)
  unfolding answer
  answer-Answered user_name content w = elim (Bool-cases (is_empty z content)) [
    | inl empty ↦ rw (empty) (refl, inl refl)
    | inr some_content ↦ elim (Bool-cases (bytes_eq content (codes "FAIL"))) [
      | inl fail ↦
          rw (some_content, fail)
            (hand_over-Answered w (send stack (codes "RSDPJ") (codes "TXT") user_name content))
      | inr found ↦
          rw (some_content, found)
            (OnDone-bind (Answered w) (pack z fuel content) (send_packed z p stack user_name w)
              (send_packed-Answered user_name w))
    ]
  ]

  look_up-Keeps :
      (user_name : Bytes) (w : World p) (taken : Option Connection) (pool : Pool)
      → get_one_connect w.pool ≡ (taken, pool)
      → OnDone (Keeps w) (look_up z p fuel now stack user_name w (taken, pool))
  unfolding look_up
  look_up-Keeps user_name w none pool e = tt
  look_up-Keeps user_name w (some c) pool e =
      OnDone-bind (Keeps w) (mysql_query p user_name [] w.server)
        (λ result. answer z p fuel stack user_name result.0 (after result))
        (λ result.
          widen result (answer z p fuel stack user_name result.0 (after result))
            (answer-Answered user_name result.0 (after result)))
    where
      after : Bytes × p.Server → World p
      after result = record w { server = result.1; pool = give_back now c pool }

      widen :
          (result : Bytes × p.Server) (r : Result (World p))
          → OnDone (Answered (after result)) r
          → OnDone (Keeps w) r
      widen result (done v) (same, answers) = (inr (c, pool, e, same), answers)
      widen result undefined h = tt
      widen result unfinished h = tt

  store-Keeps :
      (user_name content : Bytes) (w : World p) (taken : Option Connection) (pool : Pool)
      → get_one_connect w.pool ≡ (taken, pool)
      → Keeps w (store z p now user_name content w (taken, pool))
  unfolding store
  store-Keeps user_name content w none pool e = (inl (nothing_taken w.pool pool e), inl refl)
  store-Keeps user_name content w (some c) pool e = (inr (c, pool, e, refl), inl refl)

  deal_request-Keeps :
      (request : Request) (w : World p)
      → OnDone (Keeps w) (deal_request z p fuel now stack request w)
  unfolding deal_request deal_upload deal_download
  deal_request-Keeps request w =
      elim (Bool-cases
        (bytes_eq request.cmd (codes "RQUPJ") && bytes_eq request.format (codes "GZIP"))) [
          | inl upload ↦ rw (upload) (
              OnDone-bind (Keeps w) (unpack z fuel request.body) _ (λ content.
                store-Keeps request.user_name content w (get_one_connect w.pool).0
                  (get_one_connect w.pool).1 refl))
          | inr other ↦ elim (Bool-cases (bytes_eq request.cmd (codes "RQDPJ"))) [
            | inl download ↦
                rw (other, download)
                  (look_up-Keeps request.user_name w (get_one_connect w.pool).0
                    (get_one_connect w.pool).1 refl)
            | inr ignored ↦ rw (other, ignored) (inl refl, inl refl)
          ]
        ]

  deal_message-Keeps :
      (msg : Bytes) (w : World p) (request : Option Request)
      → parse_message msg ≡ request
      → OnDone (Keeps w) (deal_message z p fuel now stack msg w)
  unfolding deal_message
  deal_message-Keeps msg w none e = rw (deal_message, e) (inl refl, inl refl)
  deal_message-Keeps msg w (some request) e = rw (deal_message, e) (deal_request-Keeps request w)

  -- Whatever the message, the database and zlib do, when the handler returns, the pool is that of
  -- before or the connection that was taken from it has gone back, and at most one answer was sent.
  pub deal_message_returns_connection :
      (msg : Bytes) (before after : World p)
      → deal_message z p fuel now stack msg before ≡ done after
      → Returned before.pool after.pool × AnswersOnce before.sent after.sent
  deal_message_returns_connection msg before after e =
      subst (OnDone (Keeps before)) e (deal_message-Keeps msg before (parse_message msg) refl)
