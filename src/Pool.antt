-- ===== src/Pool.antt =====
-- The connection pool of Deli_time_server/Deli_time_server/{mysqlPool.h,mysqlPool.cc} (and its copies):
-- each function is one hold of `_queueLock`, and the threads that call them are the steps of `Step`.
-- A MysqlConnection is named by the number of its allocation; its MYSQL handle is left out.
pub mod Invariant
pub mod Scanner
pub mod Progress
pub mod Config
use vs2017code.Base.{
  ℕ, zero, suc, ◌+◌, ◌-◌, ◌*◌, ◌≡◌, Bool, true, false, not, List, [], ◌∷◌, ◌++◌, Option, none, some,
  leb, if◌then◌else◌, ℤ, pos, negsuc, is_ge,
}

pub record Connection : Type 0 where
  pub number : ℕ
  -- `_alivetime`
  pub alive_time : ℕ

-- `_initCount`, `_maxCount` and `_maxIdleTime`, the last at least 0 and below 2^31 / 1000.
pub record Settings : Type 0 where
  pub init_count : ℤ
  pub max_count : ℤ
  pub max_idle_time : ℕ

-- `_connQueue` and `_currentCount`; `allocated` counts the connections that were ever created.
pub record Pool : Type 0 where
  pub queue : List Connection
  pub current_count : ℤ
  pub allocated : ℕ

-- `_currentCount++` and `_currentCount--`.
abbrev pub increment : ℤ → ℤ
increment (pos n) = pos (suc n)
increment (negsuc zero) = pos 0
increment (negsuc (suc n)) = negsuc n

abbrev pub decrement : ℤ → ℤ
decrement (pos zero) = negsuc 0
decrement (pos (suc n)) = pos n
decrement (negsuc n) = negsuc (suc n)

-- A new connection behind the others.
unfoldable pub add_connection : ℕ → Pool → Pool
add_connection now pool = record {
  queue = pool.queue ++ record { number = pool.allocated; alive_time = now } ∷ [];
  current_count = increment pool.current_count;
  allocated = suc pool.allocated;
}

-- The loop of the constructor, `for (int i = 0; i < _initCount; ++i)`, and its start; `_currentCount`
-- is not initialised, and `stack` is what it holds.
unfoldable pub add_connections : ℕ → ℕ → Pool → Pool
add_connections zero now pool = pool
add_connections (suc n) now pool = add_connections n now (add_connection now pool)

unfoldable pub new_pool : Settings → ℤ → ℕ → Pool
new_pool settings stack now =
    let empty : Pool = record { queue = []; current_count = stack; allocated = 0 } in
    elim settings.init_count [ pos n ↦ add_connections n now empty | negsuc n ↦ empty ]

-- One round of produceConnectionTask: it waits while the queue holds a connection.
unfoldable pub produce_connection : Settings → ℕ → Pool → Pool
unfolding add_connection
produce_connection settings now pool = elim pool.queue [
  | [] ↦ if is_ge pool.current_count settings.max_count then pool else add_connection now pool
  | c ∷ queue ↦ pool
]

-- getOneConnect at the end of its wait: the front of the queue, or `nullptr` on a timeout.
unfoldable pub get_one_connect : Pool → Option Connection × Pool
get_one_connect pool = elim pool.queue [
  | [] ↦ (none, pool)
  | c ∷ queue ↦ (some c, record pool { queue = queue })
]

-- The deleter of the `shared_ptr` that getOneConnect returns.
unfoldable pub give_back : ℕ → Connection → Pool → Pool
give_back now c pool = record pool { queue = pool.queue ++ record c { alive_time = now } ∷ [] }

-- The first loop of scannerConnectionTask: `dead` is `mysql_ping(_conn) != 0`. The loop unlocks
-- `_queueLock` in each round; `none` is an unlock of a mutex that the thread does not own.
unfoldable pub close_dead :
    (Connection → Bool) → Bool → List Connection → ℤ → Option (Bool × List Connection × ℤ)
close_dead dead owned [] count = some (owned, [], count)
close_dead dead owned (c ∷ queue) count =
    let rest = close_dead dead false queue (decrement count) in
    elim (dead c) [
      | false ↦ some (owned, c ∷ queue, count)
      | true ↦ elim owned [ false ↦ none | true ↦ rest ]
    ]

-- `p->getAliveeTime() >= (_maxIdleTime * 1000)`, on a clock that does not go back.
unfoldable pub is_idle : Settings → ℕ → Connection → Bool
is_idle settings now c = leb (settings.max_idle_time * 1000) (now - c.alive_time)

-- The second loop; `none` is `front()` of an empty queue.
unfoldable pub retire_idle : Settings → ℕ → List Connection → ℤ → Option (List Connection × ℤ)
unfolding is_idle
retire_idle settings now [] count =
    if is_ge settings.init_count count then some ([], count) else none
retire_idle settings now (c ∷ queue) count =
    let rest = retire_idle settings now queue (decrement count) in
    elim (is_ge settings.init_count count) [
      | true ↦ some (c ∷ queue, count)
      | false ↦ elim (is_idle settings now c) [ false ↦ some (c ∷ queue, count) | true ↦ rest ]
    ]

-- The rest of the round, after the first loop. The `unique_lock` unlocks the mutex at its end, which
-- is undefined when the first loop has unlocked it.
unfoldable pub finish_scan : Settings → ℕ → Pool → Option (Bool × List Connection × ℤ) → Option Pool
finish_scan settings now pool none = none
finish_scan settings now pool (some (owned, queue, count)) =
    elim (retire_idle settings now queue count) [
      | none ↦ none
      | some (queue', count') ↦ elim owned [
        | false ↦ none
        | true ↦ some (record pool { queue = queue'; current_count = count' })
      ]
    ]

-- One round of scannerConnectionTask.
unfoldable pub scan : Settings → (Connection → Bool) → ℕ → Pool → Option Pool
unfolding close_dead finish_scan
scan settings dead now pool =
    finish_scan settings now pool (close_dead dead true pool.queue pool.current_count)

-- The loop of the destructor, which leaves the counter so.
unfoldable pub close_all : List Connection → ℤ → ℤ
close_all [] count = count
close_all (c ∷ queue) count = close_all queue (decrement count)

unfoldable pub destroy_pool : Pool → Pool
unfolding close_all
destroy_pool pool = record pool {
  queue = [];
  current_count = close_all pool.queue pool.current_count;
}

-- The pool, and the connections that callers hold.
pub record State : Type 0 where
  pub pool : Pool
  pub lent : List Connection

-- What the threads do.
pub data Step (settings : Settings) (s : State) : State → Type 0 where
  produced :
      (now : ℕ) → Step settings s (record s { pool = produce_connection settings now s.pool })
  taken :
      (c : Connection) (pool : Pool)
      → get_one_connect s.pool ≡ (some c, pool)
      → Step settings s (record { pool = pool; lent = c ∷ s.lent })
  returned :
      (now : ℕ) (c : Connection) (before after : List Connection)
      → s.lent ≡ before ++ c ∷ after
      → Step settings s (record { pool = give_back now c s.pool; lent = before ++ after })
  scanned :
      (dead : Connection → Bool) (now : ℕ) (pool : Pool)
      → scan settings dead now s.pool ≡ some pool
      → Step settings s (record s { pool = pool })

-- The states that a pool comes to whose counter starts at 0.
pub data Reachable (settings : Settings) : State → Type 0 where
  start :
      (now : ℕ) → Reachable settings (record { pool = new_pool settings (pos 0) now; lent = [] })
  step : {s t : State} → Reachable settings s → Step settings s t → Reachable settings t
