-- ===== src/Dblayer/RecordSet/Fields.antt =====
-- Reading a cell by the name of its field.
use vs2017code.Base.{
  ℕ, zero, suc, ◌+◌, ◌≡◌, ◌≢◌, refl, arith, Bytes, List, [], ◌∷◌, ◌++◌, map, Option, bytes_eq_refl,
  bytes_eq_sound, pos,
}
use native.Mathlib.Nat.{add-zero, zero-add}
use vs2017code.Dblayer.RecordSet.{
  RecordSet, Record, cell_text, fetched, field_no_from, get_field_no, cell, cell_named,
}

field_no_from-append :
    (i j : ℕ) (names more : List Bytes) (name : Bytes)
    → field_no_from i names name ≡ pos j
    → field_no_from i (names ++ more) name ≡ pos j
unfolding field_no_from
field_no_from-append i j [] more name h = cc
field_no_from-append i j (n ∷ names) more name h =
    ground (arith, field_no_from-append (i + 1) j names more name)

-- A second ExecuteSQL on the same record set leaves the field names of the first in front: a name
-- that the first query had is still resolved to its column there, whatever columns the second has,
-- although the rows are those of the second.
pub fetched_stale_field :
    (rs : RecordSet) (fields : List (Bytes × ℕ)) (rows : List (List (Option Bytes))) (name : Bytes)
    (i : ℕ)
    → get_field_no rs.names name ≡ pos i
    → (get_field_no (fetched rs fields rows).names name ≡ pos i)
      × ((fetched rs fields rows).rows ≡ map (map cell_text) rows)
unfolding get_field_no fetched
fetched_stale_field rs fields rows name i h =
    (field_no_from-append 0 i rs.names (map (λ f. f.0) fields) name h, refl)

-- The name stands at the number that is found, and at no earlier one.
abbrev pub FirstAt : List Bytes → Bytes → ℕ → Type 0
FirstAt [] name k = ⊥
FirstAt (n ∷ names) name zero = n ≡ name
FirstAt (n ∷ names) name (suc k) = (n ≢ name) × FirstAt names name k

field_no_from_first :
    (i k : ℕ) (names : List Bytes) (name : Bytes)
    → FirstAt names name k
    → field_no_from i names name ≡ pos (i + k)
unfolding field_no_from
field_no_from_first i k [] name h = absurd h
field_no_from_first i zero (n ∷ names) name h = ground (arith, bytes_eq_refl name, add-zero i)
field_no_from_first i (suc k) (n ∷ names) name h =
    ground (arith, bytes_eq_sound n name, field_no_from_first (i + 1) k names name h.1)

-- On a record set used for one query, the cell named by a field is the cell at the first column of
-- that name.
pub cell_named_first :
    (rs : RecordSet) (fields : List (Bytes × ℕ)) (rows : List (List (Option Bytes))) (row : Record)
    (name : Bytes) (k : ℕ)
    → rs.names ≡ []
    → FirstAt (map (λ f. f.0) fields) name k
    → cell_named (fetched rs fields rows).names row name ≡ cell row k
unfolding cell_named get_field_no fetched
cell_named_first rs fields rows row name k e h =
    rw (e, ◌++◌) (rw (field_no_from_first 0 k (map (λ f. f.0) fields) name h, cell_named, zero-add))
