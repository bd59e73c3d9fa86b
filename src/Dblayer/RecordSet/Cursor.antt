-- ===== src/Dblayer/RecordSet/Cursor.antt =====
-- Where the cursor stands after each move.
use vs2017code.Base.{
  ℕ, zero, suc, ◌+◌, ◌-◌, ◌^◌, ◌<◌, ◌≡◌, refl, arith, false, [], length, pos, negsuc, ◌==◌,
}
use Prim.Native.Nat.{min}
use vs2017code.Dblayer.RecordSet.{RecordSet, move_next, move, move_first, move_last, is_eof}

-- On a record set of fewer than 2^30 rows and from a cursor at a row, `Move` forward by a distance
-- below 2^30 stops at the last row at the latest, and `Move` backward by a distance of at most 2^30 at
-- the first.
pub move_clamps :
    (rs : RecordSet) (n : ℕ)
    → rs.position < length rs.rows
    → length rs.rows < 2 ^ 30
    → n < 2 ^ 30
    → ((move rs (pos n)).position ≡ min (rs.position + n) (length rs.rows - 1))
      × ((move rs (negsuc n)).position ≡ rs.position - suc n)
unfolding move
move_clamps rs n h size small = (ground arith, ground arith)

-- `k` calls of MoveNext after MoveFirst.
pub visited : ℕ → RecordSet → RecordSet
visited zero rs = move_first rs
visited (suc k) rs = move_next (visited k rs)

visited_position :
    (k : ℕ) (rs : RecordSet)
    → k < 2 ^ 64
    → ((visited k rs).position ≡ k) × ((visited k rs).rows ≡ rs.rows)
unfolding visited move_first move_next
visited_position zero rs h = (refl, refl)
visited_position (suc k) rs h = ground (arith, visited_position k rs (omega arith))

-- A loop that starts with MoveFirst and calls MoveNext stands, after `k` calls with `k` below 2^64, at
-- row `k`, and IsEof is true there exactly when `k` is the number of rows.
pub visited_all :
    (k : ℕ) (rs : RecordSet)
    → k < 2 ^ 64
    → ((visited k rs).position ≡ k) × (is_eof (visited k rs) ≡ (k == length rs.rows))
unfolding is_eof
visited_all k rs h = ground (arith, visited_position k rs h)

-- On an empty record set, `Move` forward by less than 2^31 from its start and MoveLast set the
-- cursor to 2^64 - 1, and IsEof is false there.
pub move_empty :
    (rs : RecordSet) (n : ℕ)
    → rs.rows ≡ []
    → rs.position ≡ 0
    → n < 2 ^ 31
    → (move rs (pos n) ≡ move_last rs)
      × ((move_last rs).position ≡ 2 ^ 64 - 1)
      × (is_eof (move_last rs) ≡ false)
unfolding move move_last is_eof
move_empty rs n e z h = (ground arith, ground arith, ground arith)
