-- ===== src/Tests/Database.antt =====
-- The theorems on the connection, the record sets and the statements at concrete inputs.
use vs2017code.Base.{
  ℕ, ◌+◌, ◌≡◌, ◌≢◌, ◌⊎◌, refl, arith, Bytes, codes, true, false, List, [], ◌∷◌, some, none,
  if◌then◌else◌, Option, pos,
}
use vs2017code.Dblayer.Platform.{live, null, freed, ok, fault}
use vs2017code.Dblayer.Database.{connect, connected, close_and_fail, ping, minus_one}
use vs2017code.Dblayer.Database.Connection.{connect_outcome}
use vs2017code.Dblayer.Operation.{reconnect, ensure_connected, run_update}
use vs2017code.Dblayer.Operation.Reconnect.{
  ensure_connected_live, run_update_defined, reconnect_failure_dangles,
}
use vs2017code.Dblayer.RecordSet.{RecordSet, is_eof}
use vs2017code.Dblayer.RecordSet.Cursor.{visited, visited_all}
use vs2017code.Dblayer.Statement.Values.{replace_into_injective}
use vs2017code.Tests.Server.{scripted, lost}

connect_outcome_example :
    (((connect (lost true).login (lost true)).0 ≡ ok (pos 0))
      × ((connect (lost true).login (lost true)).1.handle ≡ live)
      × ((connect (lost true).login (lost true)).1.open_handles ≡ (lost true).open_handles + 1))
    ⊎ (((connect (lost true).login (lost true)).0 ≡ ok minus_one)
        × ((connect (lost true).login (lost true)).1.handle
            ≡ (if scripted.init_succeeds (lost true).server then freed else null))
        × ((connect (lost true).login (lost true)).1.open_handles ≡ (lost true).open_handles))
connect_outcome_example = connect_outcome (lost true).login (lost true)

ensure_connected_live_example : (ensure_connected (lost true)).1.handle ≡ live
unfolding ensure_connected reconnect connect connected close_and_fail ping
ensure_connected_live_example = ensure_connected_live (lost true) refl

run_update_defined_example : (run_update (codes "COMMIT") (lost false)).0 ≢ fault
run_update_defined_example = run_update_defined (codes "COMMIT") (lost false) (λ e. ground arith)

reconnect_failure_dangles_example : (ensure_connected (reconnect (lost false)).1).0 ≡ fault
unfolding ensure_connected reconnect connect connected close_and_fail ping
reconnect_failure_dangles_example = reconnect_failure_dangles (lost false) refl refl

-- Three rows, the cursor at the second; an empty record set; a used one.
abbrev three_rows : RecordSet
three_rows = record {
  rows = (codes "1" ∷ []) ∷ (codes "2" ∷ []) ∷ (codes "3" ∷ []) ∷ [];
  position = 1;
  record_count = pos 3;
  field_num = 1;
  names = codes "id" ∷ [];
  types = 3 ∷ [];
}

abbrev no_rows : RecordSet
no_rows = record three_rows {
  rows = [];
  position = 0;
  record_count = pos 0;
  names = [];
  types = [];
}

visited_all_example : ((visited 3 three_rows).position ≡ 3) × (is_eof (visited 3 three_rows) ≡ true)
visited_all_example = visited_all 3 three_rows (omega arith)

abbrev two_fields : List (Bytes × ℕ)
two_fields = (codes "name", 253) ∷ (codes "id", 3) ∷ []

abbrev one_raw : List (List (Option Bytes))
one_raw = (some (codes "chao") ∷ none ∷ []) ∷ []

replace_into_injective_example : codes "a" ∷ codes "b" ∷ [] ≡ codes "a" ∷ codes "b" ∷ []
replace_into_injective_example =
    replace_into_injective (codes "t") (codes "a") (codes "a") (codes "b" ∷ []) (codes "b" ∷ [])
      (((λ e. omega arith), tt), (((λ e. omega arith), tt), tt))
      (((λ e. omega arith), tt), (((λ e. omega arith), tt), tt)) refl
