-- ===== src/Tests/Lending.antt =====
-- The connection pool at concrete states: one connection at first, two at most.
use vs2017code.Base.{◌≡◌, ◌⊎◌, refl, arith, true, false, [], ◌∷◌, some, none, length, pos, is_ge}
use vs2017code.Pool.{
  Connection, Settings, Pool, State, Reachable, start, step, taken, produced, add_connection,
  add_connections, new_pool, produce_connection, get_one_connect, scan,
}
use vs2017code.Pool.Scanner.{scan_dead_front}
use vs2017code.Pool.Invariant.{IsWellFormed, Reachable-IsWellFormed}
use vs2017code.Pool.Progress.{get_one_connect-produce_connection, scan-Alive}

abbrev settings : Settings
settings = record { init_count = pos 1; max_count = pos 2; max_idle_time = 60 }

abbrev first : Connection
first = record { number = 0; alive_time = 5 }

abbrev second : Connection
second = record { number = 1; alive_time = 9 }

-- The pool before it is used, with its connection lent, refilled, and with both lent.
abbrev unused : State
unused = record {
  pool = record { queue = first ∷ []; current_count = pos 1; allocated = 1 };
  lent = [];
}

abbrev one_lent : State
one_lent = record {
  pool = record { queue = []; current_count = pos 1; allocated = 1 };
  lent = first ∷ [];
}

abbrev refilled : State
refilled = record {
  pool = record { queue = second ∷ []; current_count = pos 2; allocated = 2 };
  lent = first ∷ [];
}

abbrev both_lent : State
both_lent = record {
  pool = record { queue = []; current_count = pos 2; allocated = 2 };
  lent = second ∷ first ∷ [];
}

unused-Reachable : Reachable settings unused
unfolding new_pool add_connections add_connection
unused-Reachable = start 5

one_lent-Reachable : Reachable settings one_lent
unfolding get_one_connect
one_lent-Reachable = step unused-Reachable (taken first one_lent.pool refl)

refilled-Reachable : Reachable settings refilled
unfolding produce_connection add_connection
refilled-Reachable = step one_lent-Reachable (produced 9)

both_lent-Reachable : Reachable settings both_lent
unfolding get_one_connect
both_lent-Reachable = step refilled-Reachable (taken second both_lent.pool refl)

Reachable-IsWellFormed_example : IsWellFormed settings refilled
Reachable-IsWellFormed_example = Reachable-IsWellFormed settings refilled-Reachable

get_one_connect-produce_connection_example :
    (c : Connection) × (pool : Pool) × (get_one_connect
        (produce_connection settings 9 one_lent.pool)
      ≡ (some c, pool))
get_one_connect-produce_connection_example =
    get_one_connect-produce_connection settings one_lent 9 2 one_lent-Reachable refl (omega arith)

scan-Alive_example :
    (after : Pool) × (scan settings (λ c. false) 70 refilled.pool ≡ some after)
    × ((length after.queue ≡ length refilled.pool.queue)
        ⊎ (is_ge after.current_count settings.init_count ≡ true))
scan-Alive_example = scan-Alive settings (λ c. false) 70 refilled refilled-Reachable (refl, tt) refl

scan_dead_front_example : scan settings (λ c. true) 70 unused.pool ≡ none
scan_dead_front_example = scan_dead_front settings (λ c. true) 70 unused.pool first [] refl refl
