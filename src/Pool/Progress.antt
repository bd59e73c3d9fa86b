-- ===== src/Pool/Progress.antt =====
-- What a caller gets from the connection pool, and when a round of the scanner is defined.
use vs2017code.Base.{
  ℕ, zero, suc, ◌+◌, ◌<◌, ◌≡◌, ◌⊎◌, inl, inr, refl, ap, ◌∙◌, arith, Bool, true, false, List, [],
  ◌∷◌, none, some, length, ℤ, pos, is_ge, All, Bool-cases,
}
use vs2017code.Pool.{
  Connection, Settings, Pool, State, Reachable, add_connection, produce_connection, get_one_connect,
  close_dead, is_idle, retire_idle, finish_scan, scan, close_all, destroy_pool,
}
use vs2017code.Pool.Scanner.{scan_lem}
use vs2017code.Pool.Invariant.{Reachable-IsWellFormed}

-- In a reachable state in which fewer than `_maxCount` connections exist, getOneConnect after a round
-- of the producer returns a connection.
pub get_one_connect-produce_connection :
    (settings : Settings) (s : State) (now n : ℕ)
    → Reachable settings s
    → settings.max_count ≡ pos n
    → length s.lent + length s.pool.queue < n
    → (c : Connection) × (pool : Pool) × (get_one_connect (produce_connection settings now s.pool)
        ≡ (some c, pool))
unfolding get_one_connect produce_connection add_connection
get_one_connect-produce_connection settings s now n r e room = by_queue s.pool.queue refl
  where
    by_queue :
        (queue : List Connection)
        → s.pool.queue ≡ queue
        → (c : Connection) × (pool : Pool) × (get_one_connect
              (produce_connection settings now s.pool)
            ≡ (some c, pool))
    by_queue (c ∷ queue) e' = (c, record s.pool { queue = queue }, ground arith)
    by_queue [] e' =
        let below : is_ge s.pool.current_count settings.max_count ≡ false =
          ground (arith, (Reachable-IsWellFormed settings r).counted) in
        (
          record { number = s.pool.allocated; alive_time = now },
          record (add_connection now s.pool) { queue = [] },
          ground arith,
        )

-- In a reachable state whose queue is empty while callers hold more than `_initCount` connections, a
-- round of the scanner is undefined: it takes the front of the empty queue.
pub scan_all_lent :
    (settings : Settings) (dead : Connection → Bool) (now : ℕ) (s : State)
    → Reachable settings s
    → s.pool.queue ≡ []
    → is_ge settings.init_count (pos (length s.lent)) ≡ false
    → scan settings dead now s.pool ≡ none
unfolding scan close_dead finish_scan retire_idle
scan_all_lent settings dead now s r e more =
    let w = Reachable-IsWellFormed settings r in
    let count : s.pool.current_count ≡ pos (length s.lent) =
      w.counted ∙ ap pos (omega (arith, ap length e)) in
    rw (e, count, close_dead, finish_scan, retire_idle, more) refl

abbrev pub Alive : (Connection → Bool) → Connection → Type 0
Alive dead c = dead c ≡ false

close_dead-Alive :
    (dead : Connection → Bool) (queue : List Connection) (count : ℤ)
    → All (Alive dead) queue
    → close_dead dead true queue count ≡ some (true, queue, count)
unfolding close_dead
close_dead-Alive dead [] count h = refl
close_dead-Alive dead (c ∷ queue) count h = ground arith

retire_idle_defined :
    (settings : Settings) (now : ℕ) (queue : List Connection) (n m : ℕ)
    → m ≡ n + length queue
    → is_ge settings.init_count (pos n) ≡ true
    → (left : List Connection) × (rest : ℤ) × (retire_idle settings now queue (pos m)
        ≡ some (left, rest))
unfolding retire_idle
retire_idle_defined settings now [] n m size h =
    let same : m ≡ n = omega arith in ([], pos m, rw (same, retire_idle, h) refl)
retire_idle_defined settings now (c ∷ queue) n zero size h = absurd (omega arith)
retire_idle_defined settings now (c ∷ queue) n (suc m) size h =
    let (left, rest, ih) = retire_idle_defined settings now queue n m (omega arith) h in
    elim (Bool-cases (is_ge settings.init_count (pos (suc m)))) [
      | inl enough ↦ (c ∷ queue, pos (suc m), ground arith)
      | inr more ↦ elim (Bool-cases (is_idle settings now c)) [
        | inl idle ↦ (left, rest, ground arith)
        | inr fresh ↦ (c ∷ queue, pos (suc m), ground arith)
      ]
    ]

scan_defined :
    (settings : Settings) (dead : Connection → Bool) (now : ℕ) (pool : Pool)
    (left : List Connection) (rest : ℤ)
    → All (Alive dead) pool.queue
    → retire_idle settings now pool.queue pool.current_count ≡ some (left, rest)
    → scan settings dead now pool ≡ some (record pool { queue = left; current_count = rest })
unfolding scan finish_scan
scan_defined settings dead now pool left rest alive h =
    rw (close_dead-Alive dead pool.queue pool.current_count alive, finish_scan, h) refl

-- In a reachable state in which the connections of the queue are alive and callers hold at most
-- `_initCount` of them, a round of the scanner is defined, and it retires no connection or leaves at
-- least `_initCount` of them.
pub scan-Alive :
    (settings : Settings) (dead : Connection → Bool) (now : ℕ) (s : State)
    → Reachable settings s
    → All (Alive dead) s.pool.queue
    → is_ge settings.init_count (pos (length s.lent)) ≡ true
    → (after : Pool) × (scan settings dead now s.pool ≡ some after)
      × ((length after.queue ≡ length s.pool.queue)
          ⊎ (is_ge after.current_count settings.init_count ≡ true))
scan-Alive settings dead now s r alive held =
    let w = Reachable-IsWellFormed settings r in
    let (left, rest, e) =
      retire_idle_defined settings now s.pool.queue (length s.lent)
        (length s.lent + length s.pool.queue) refl held in
    let after : Pool = record s.pool { queue = left; current_count = rest } in
    let defined : scan settings dead now s.pool ≡ some after =
      scan_defined settings dead now s.pool left rest alive
        (ap (retire_idle settings now s.pool.queue) w.counted ∙ e) in
    (
      after,
      defined,
      (scan_lem settings dead now s.pool after (length s.lent) w.counted defined).0.kept,
    )

close_all_lem :
    (queue : List Connection) (n m : ℕ) → m ≡ n + length queue → close_all queue (pos m) ≡ pos n
unfolding close_all
close_all_lem [] n m size = ap pos (omega arith)
close_all_lem (c ∷ queue) n zero size = absurd (omega arith)
close_all_lem (c ∷ queue) n (suc m) size = close_all_lem queue n m (omega arith)

-- The destructor, in a reachable state, leaves no connection in the queue, and a counter of those that
-- callers still hold.
pub destroy_pool_lem :
    (settings : Settings) (s : State)
    → Reachable settings s
    → ((destroy_pool s.pool).queue ≡ [])
      × ((destroy_pool s.pool).current_count ≡ pos (length s.lent))
unfolding destroy_pool
destroy_pool_lem settings s r =
    let w = Reachable-IsWellFormed settings r in
    (
      refl,
      ap (close_all s.pool.queue) w.counted
          ∙ close_all_lem s.pool.queue (length s.lent) (length s.lent + length s.pool.queue) refl,
    )
