-- ===== src/Pool/Scanner.antt =====
-- The scanner of the connection pool: what a round that is defined does, and when it is not.
use vs2017code.Base.{
  ℕ, zero, suc, ◌+◌, ◌≤◌, ◌≡◌, ◌⊎◌, inl, inr, refl, sym, ap, ◌∙◌, arith, Bool, true, false, List,
  [], ◌∷◌, Option, none, some, length, ◌==◌, if◌then◌else◌, ℤ, pos, negsuc, is_ge,
}
use vs2017code.Pool.{
  Connection, Settings, Pool, decrement, close_dead, retire_idle, finish_scan, scan,
}

-- How many of the connections have this number.
unfoldable pub occurrences : ℕ → List Connection → ℕ
occurrences k [] = 0
occurrences k (c ∷ queue) = (if c.number == k then 1 else 0) + occurrences k queue

-- Once the first loop has unlocked, it stays so.
close_dead_unowned :
    (dead : Connection → Bool) (queue left : List Connection) (count rest : ℤ)
    → close_dead dead false queue count ≡ some (true, left, rest)
    → ⊥
unfolding close_dead
close_dead_unowned dead [] left count rest h = cc
close_dead_unowned dead (c ∷ queue) left count rest h = ground arith

-- The first loop ends with the lock only when it did nothing.
close_dead_owned :
    (dead : Connection → Bool) (queue left : List Connection) (count rest : ℤ)
    → close_dead dead true queue count ≡ some (true, left, rest)
    → (left ≡ queue) × (rest ≡ count)
unfolding close_dead
close_dead_owned dead [] left count rest h = (cc, cc)
close_dead_owned dead (c ∷ queue) left count rest h =
    ground (arith, close_dead_unowned dead queue left (decrement count) rest)

-- What the second loop keeps, when the counter is right before it.
pub record Retired (settings : Settings) (queue left : List Connection) (n : ℕ) (rest : ℤ)
    : Type 0 where
  pub counted : rest ≡ pos (n + length left)
  pub shorter : length left ≤ length queue
  pub fewer : (k : ℕ) → occurrences k left ≤ occurrences k queue
  pub kept : (length left ≡ length queue) ⊎ (is_ge rest settings.init_count ≡ true)

unchanged :
    (settings : Settings) (queue left : List Connection) (n : ℕ) (rest : ℤ)
    → left ≡ queue
    → rest ≡ pos (n + length queue)
    → Retired settings queue left n rest
unchanged settings queue left n rest e f =
    rw (e, f)
      (record { counted = refl; shorter = omega arith; fewer = λ k. omega arith; kept = inl refl })

-- The first round of the second loop stops it, or retires the front.
retire_idle_round :
    (settings : Settings) (now : ℕ) (c : Connection) (queue left : List Connection) (count rest : ℤ)
    → retire_idle settings now (c ∷ queue) count ≡ some (left, rest)
    → ((left ≡ c ∷ queue) × (rest ≡ count))
      ⊎ ((is_ge settings.init_count count ≡ false)
          × (retire_idle settings now queue (decrement count) ≡ some (left, rest)))
unfolding retire_idle
retire_idle_round settings now c queue left count rest h = ground arith

above_init : (init : ℤ) (n : ℕ) → is_ge init (pos (suc n)) ≡ false → is_ge (pos n) init ≡ true
above_init (pos i) n h = ground arith
above_init (negsuc i) n h = refl

kept_after :
    (settings : Settings) (queue left : List Connection) (n m : ℕ) (rest : ℤ)
    → m ≡ n + length queue
    → is_ge settings.init_count (pos (suc m)) ≡ false
    → Retired settings queue left n rest
    → is_ge rest settings.init_count ≡ true
kept_after settings queue left n m rest size above r = elim r.kept [
  | inl same ↦ rw (r.counted, same, ← size) (above_init settings.init_count m above)
  | inr kept ↦ kept
]

retire_idle_empty :
    (settings : Settings) (now : ℕ) (left : List Connection) (count rest : ℤ)
    → retire_idle settings now [] count ≡ some (left, rest)
    → (left ≡ []) × (rest ≡ count)
unfolding retire_idle
retire_idle_empty settings now left count rest h = ground arith

pub retire_idle_lem :
    (settings : Settings) (now : ℕ) (queue left : List Connection) (n m : ℕ) (rest : ℤ)
    → m ≡ n + length queue
    → retire_idle settings now queue (pos m) ≡ some (left, rest)
    → Retired settings queue left n rest
unfolding occurrences
retire_idle_lem settings now [] left n m rest size h =
    let (e, f) = retire_idle_empty settings now left (pos m) rest h in
    unchanged settings [] left n rest e (f ∙ ap pos size)
retire_idle_lem settings now (c ∷ queue) left n zero rest size h = absurd (omega arith)
retire_idle_lem settings now (c ∷ queue) left n (suc m) rest size h =
    elim (retire_idle_round settings now c queue left (pos (suc m)) rest h) [
      | inl (e, f) ↦ unchanged settings (c ∷ queue) left n rest e (f ∙ ap pos size)
      | inr (above, h') ↦
          let ih = retire_idle_lem settings now queue left n m rest (omega arith) h' in
          record {
            counted = ih.counted;
            shorter = omega (arith, ih.shorter);
            fewer = λ k. omega (arith, ih.fewer k);
            kept = inr (kept_after settings queue left n m rest (omega arith) above ih);
          }
    ]

close_dead_cases :
    (settings : Settings) (now : ℕ) (pool after : Pool)
    (closed : Option (Bool × List Connection × ℤ))
    → ((queue : List Connection) (count : ℤ)
        → closed ≡ some (true, queue, count)
        → (queue ≡ pool.queue) × (count ≡ pool.current_count))
    → finish_scan settings now pool closed ≡ some after
    → (retire_idle settings now pool.queue pool.current_count
        ≡ some (after.queue, after.current_count))
      × (after.allocated ≡ pool.allocated)
unfolding finish_scan
close_dead_cases settings now pool after none same h = cc
close_dead_cases settings now pool after (some (false, queue, count)) same h = ground arith
close_dead_cases settings now pool after (some (true, queue, count)) same h =
    ground (arith, same queue count refl)

-- A round of the scanner that is defined only ran its second loop.
scan_round :
    (settings : Settings) (dead : Connection → Bool) (now : ℕ) (pool after : Pool)
    → scan settings dead now pool ≡ some after
    → (retire_idle settings now pool.queue pool.current_count
        ≡ some (after.queue, after.current_count))
      × (after.allocated ≡ pool.allocated)
unfolding scan
scan_round settings dead now pool after h =
    close_dead_cases settings now pool after (close_dead dead true pool.queue pool.current_count)
      (λ queue count. close_dead_owned dead pool.queue queue pool.current_count count) h

-- A round of the scanner that is defined leaves a part of the queue, and a right counter right: it
-- retires connections only while more than the initial number exist.
pub scan_lem :
    (settings : Settings) (dead : Connection → Bool) (now : ℕ) (pool after : Pool) (n : ℕ)
    → pool.current_count ≡ pos (n + length pool.queue)
    → scan settings dead now pool ≡ some after
    → Retired settings pool.queue after.queue n after.current_count
      × (after.allocated ≡ pool.allocated)
scan_lem settings dead now pool after n counted h =
    let (round, same) = scan_round settings dead now pool after h in
    (
      retire_idle_lem settings now pool.queue after.queue n (n + length pool.queue)
          after.current_count refl (ap (retire_idle settings now pool.queue) (sym counted) ∙ round),
      same,
    )

unowned_undefined :
    (settings : Settings) (now : ℕ) (pool : Pool) (closed : Option (Bool × List Connection × ℤ))
    → ((queue : List Connection) (count : ℤ) → closed ≡ some (true, queue, count) → ⊥)
    → finish_scan settings now pool closed ≡ none
unfolding finish_scan
unowned_undefined settings now pool none unowned = refl
unowned_undefined settings now pool (some (true, queue, count)) unowned =
    absurd (unowned queue count refl)
unowned_undefined settings now pool (some (false, queue, count)) unowned = ground arith

-- A round of the scanner that finds a dead connection at the front of the queue is undefined: the
-- lock that its first loop has given up is unlocked again, whatever the other connections are.
pub scan_dead_front :
    (settings : Settings) (dead : Connection → Bool) (now : ℕ) (pool : Pool) (c : Connection)
    (queue : List Connection)
    → pool.queue ≡ c ∷ queue
    → dead c ≡ true
    → scan settings dead now pool ≡ none
unfolding scan close_dead
scan_dead_front settings dead now pool c queue e h =
    rw (e, close_dead)
      (rw (h) (
        unowned_undefined settings now pool
          (close_dead dead false queue (decrement pool.current_count))
          (λ left count. close_dead_unowned dead queue left (decrement pool.current_count) count)))
