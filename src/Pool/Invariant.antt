-- ===== src/Pool/Invariant.antt =====
-- The invariant of the connection pool, over all interleavings of its threads.
use vs2017code.Base.{
  ℕ, zero, suc, ◌+◌, ◌≤◌, ◌<◌, ◌≡◌, ◌⊎◌, inl, inr, refl, sym, ap, ◌∙◌, arith, Bool, false, List, [],
  ◌∷◌, ◌++◌, some, length, length-append, ℤ, pos, negsuc, is_ge,
}
use Prim.Native.Nat.{max}
use vs2017code.Pool.{
  Connection, Settings, Pool, State, Step, produced, taken, returned, scanned, Reachable, start,
  step, increment, add_connection, add_connections, new_pool, produce_connection, get_one_connect,
  give_back, scan,
}
use vs2017code.Pool.Scanner.{occurrences, scan_lem}

occurrences-append :
    (k : ℕ) (a b : List Connection) → occurrences k (a ++ b) ≡ occurrences k a + occurrences k b
unfolding occurrences
occurrences-append k [] b = omega arith
occurrences-append k (c ∷ a) b = omega (arith, occurrences-append k a b)

-- A setting as a number of connections; a negative one is none.
abbrev pub at_least_zero : ℤ → ℕ
at_least_zero (pos n) = n
at_least_zero (negsuc n) = 0

abbrev pub limit : Settings → ℕ
limit settings = max (at_least_zero settings.init_count) (at_least_zero settings.max_count)

-- The counter is the number of connections in the queue and with callers, which stays within the
-- larger of the two sizes; each allocated connection is in at most one place, at most once.
pub record IsWellFormed (settings : Settings) (s : State) : Type 0 where
  pub counted : s.pool.current_count ≡ pos (length s.lent + length s.pool.queue)
  pub bounded : length s.lent + length s.pool.queue ≤ limit settings
  pub unique : (k : ℕ) → occurrences k s.lent + occurrences k s.pool.queue ≤ 1
  pub fresh : (k : ℕ) → s.pool.allocated ≤ k → occurrences k s.lent + occurrences k s.pool.queue ≡ 0

add_connection-IsWellFormed :
    (settings : Settings) (now : ℕ) (s : State)
    → IsWellFormed settings s
    → length s.lent + length s.pool.queue < limit settings
    → IsWellFormed settings (record s { pool = add_connection now s.pool })
unfolding add_connection occurrences
add_connection-IsWellFormed settings now s w room =
    let added : List Connection = record { number = s.pool.allocated; alive_time = now } ∷ [] in
    let size = length-append s.pool.queue added in
    record {
      counted = ap increment w.counted ∙ ap pos (omega (arith, size));
      bounded = omega (arith, size);
      unique =
          λ k. (ground (arith, w.unique k, w.fresh k, occurrences-append k s.pool.queue added));
      fresh =
          λ k h. (ground (arith, w.fresh k (omega arith), occurrences-append k s.pool.queue added));
    }

produce_room :
    (settings : Settings) (n : ℕ) → is_ge (pos n) settings.max_count ≡ false → n < limit settings
produce_room settings n h = ground arith

produce_outcome :
    (settings : Settings) (now : ℕ) (pool : Pool)
    → (produce_connection settings now pool ≡ pool)
      ⊎ ((is_ge pool.current_count settings.max_count ≡ false)
          × (produce_connection settings now pool ≡ add_connection now pool))
unfolding produce_connection
produce_outcome settings now pool = ground arith

produce_connection-IsWellFormed :
    (settings : Settings) (now : ℕ) (s : State)
    → IsWellFormed settings s
    → IsWellFormed settings (record s { pool = produce_connection settings now s.pool })
produce_connection-IsWellFormed settings now s w = elim (produce_outcome settings now s.pool) [
  | inl same ↦ rw (same) w
  | inr (below, added) ↦ rw (added) (
      add_connection-IsWellFormed settings now s w (
        produce_room settings (length s.lent + length s.pool.queue)
          (ap (λ n. is_ge n settings.max_count) (sym w.counted) ∙ below)))
]

get_one_connect-IsWellFormed :
    (settings : Settings) (c : Connection) (pool : Pool) (s : State)
    → IsWellFormed settings s
    → get_one_connect s.pool ≡ (some c, pool)
    → IsWellFormed settings (record { pool = pool; lent = c ∷ s.lent })
unfolding get_one_connect occurrences
get_one_connect-IsWellFormed settings c pool s w h =
    let taken_first : (s.pool.queue ≡ c ∷ pool.queue)
        × (pool.current_count ≡ s.pool.current_count)
        × (pool.allocated ≡ s.pool.allocated) =
      ground arith in
    let size : length s.pool.queue ≡ suc (length pool.queue) = ap length taken_first.0 in
    record {
      counted = taken_first.1 ∙ w.counted ∙ ap pos (omega (arith, size));
      bounded = omega (arith, w.bounded, size);
      unique = λ k. omega (arith, w.unique k, ap (occurrences k) taken_first.0);
      fresh = λ k h'.
          (let old : s.pool.allocated ≤ k = omega (arith, h', taken_first.2) in
            omega (arith, w.fresh k old, ap (occurrences k) taken_first.0));
    }

give_back-IsWellFormed :
    (settings : Settings) (now : ℕ) (c : Connection) (before after : List Connection) (s : State)
    → IsWellFormed settings s
    → s.lent ≡ before ++ c ∷ after
    → IsWellFormed settings (record { pool = give_back now c s.pool; lent = before ++ after })
unfolding give_back occurrences
give_back-IsWellFormed settings now c before after s w e = record {
  counted = w.counted ∙ ap pos (omega (arith, sizes));
  bounded = omega (arith, w.bounded, sizes);
  unique = λ k. omega (arith, w.unique k, numbers k);
  fresh = λ k h. omega (arith, w.fresh k h, numbers k);
}
  where
    back : List Connection
    back = record c { alive_time = now } ∷ []

    sizes :
        length (before ++ after) + length (s.pool.queue ++ back)
        ≡ length s.lent + length s.pool.queue
    sizes = rw (e) (
        omega (
          arith,
          length-append before after,
          length-append before (c ∷ after),
          length-append s.pool.queue back,
        ))

    numbers :
        (k : ℕ)
        → occurrences k (before ++ after) + occurrences k (s.pool.queue ++ back)
          ≡ occurrences k s.lent + occurrences k s.pool.queue
    numbers k = rw (e) (
        omega (
          arith,
          occurrences-append k before after,
          occurrences-append k before (c ∷ after),
          occurrences-append k s.pool.queue back,
        ))

scan-IsWellFormed :
    (settings : Settings) (dead : Connection → Bool) (now : ℕ) (pool : Pool) (s : State)
    → IsWellFormed settings s
    → scan settings dead now s.pool ≡ some pool
    → IsWellFormed settings (record s { pool = pool })
scan-IsWellFormed settings dead now pool s w h =
    let (r, same) = scan_lem settings dead now s.pool pool (length s.lent) w.counted h in
    record {
      counted = r.counted;
      bounded = omega (arith, w.bounded, r.shorter);
      unique = λ k. omega (arith, w.unique k, r.fewer k);
      fresh = λ k above. omega (arith, w.fresh k (omega (arith, above, same)), r.fewer k);
    }

length-add_connection :
    (now : ℕ) (pool : Pool) → length (add_connection now pool).queue ≡ suc (length pool.queue)
unfolding add_connection
length-add_connection now pool =
    omega
      (arith, length-append pool.queue (record { number = pool.allocated; alive_time = now } ∷ []))

abbrev empty : State
empty = record { pool = record { queue = []; current_count = pos 0; allocated = 0 }; lent = [] }

empty-IsWellFormed : (settings : Settings) → IsWellFormed settings empty
unfolding occurrences
empty-IsWellFormed settings = record {
  counted = refl;
  bounded = omega arith;
  unique = λ k. omega arith;
  fresh = λ k h. refl;
}

add_connections-IsWellFormed :
    (settings : Settings) (n now : ℕ) (s : State)
    → IsWellFormed settings s
    → length s.lent + length s.pool.queue + n ≤ limit settings
    → IsWellFormed settings (record s { pool = add_connections n now s.pool })
unfolding add_connections
add_connections-IsWellFormed settings zero now s w room = w
add_connections-IsWellFormed settings (suc n) now s w room =
    add_connections-IsWellFormed settings n now (record s { pool = add_connection now s.pool })
      (add_connection-IsWellFormed settings now s w (omega arith))
      (omega (arith, length-add_connection now s.pool))

new_pool-IsWellFormed :
    (settings : Settings) (now : ℕ)
    → IsWellFormed settings (record { pool = new_pool settings (pos 0) now; lent = [] })
unfolding new_pool
new_pool-IsWellFormed settings now = new_pool_of settings.init_count refl
  where
    new_pool_of :
        (i : ℤ)
        → settings.init_count ≡ i
        → IsWellFormed settings (record { pool = new_pool settings (pos 0) now; lent = [] })
    new_pool_of (pos n) e =
        let made : new_pool settings (pos 0) now ≡ add_connections n now empty.pool =
          ground arith in
        rw (made) (
          add_connections-IsWellFormed settings n now empty (empty-IsWellFormed settings)
            (ground arith))
    new_pool_of (negsuc n) e =
        let made : new_pool settings (pos 0) now ≡ empty.pool = ground arith in
        rw (made) (empty-IsWellFormed settings)

Step-IsWellFormed :
    (settings : Settings) (s : State) {t : State}
    → IsWellFormed settings s
    → Step settings s t
    → IsWellFormed settings t
Step-IsWellFormed settings s w (produced now) = produce_connection-IsWellFormed settings now s w
Step-IsWellFormed settings s w (taken c pool h) = get_one_connect-IsWellFormed settings c pool s w h
Step-IsWellFormed settings s w (returned now c before after e) =
    give_back-IsWellFormed settings now c before after s w e
Step-IsWellFormed settings s w (scanned dead now pool h) =
    scan-IsWellFormed settings dead now pool s w h

-- A pool whose counter starts at 0 is well-formed after every interleaving of its threads: the
-- counter is the number of its connections, there are never more than the larger of the initial and
-- the largest size, and no connection is lent twice, or lent and in the queue.
pub Reachable-IsWellFormed :
    (settings : Settings) {s : State} → Reachable settings s → IsWellFormed settings s
Reachable-IsWellFormed settings (start now) = new_pool-IsWellFormed settings now
Reachable-IsWellFormed settings (step {s} r h) =
    Step-IsWellFormed settings s (Reachable-IsWellFormed settings r) h
