-- ===== src/Dblayer/Statement/Rows.antt =====
-- What the shared body of the readers returns, for rows that the reader of a table accepts.
use vs2017code.Base.{
  ℕ, zero, suc, ◌^◌, ◌≤◌, ◌<◌, ◌≡◌, refl, ap, ◌∙◌, arith, Bytes, true, false, List, [], ◌∷◌, ◌++◌,
  map, append_assoc, append-nil, Option, some, length, take, c_string,
}
use vs2017code.Dblayer.Platform.{Platform, failed, result_set, Session, ok}
use vs2017code.Dblayer.RecordSet.{Record, cell_text, fetched}
use vs2017code.Dblayer.Operation.{ensure_connected}
use vs2017code.Dblayer.Operation.Reconnect.{ensure_connected_live}
use vs2017code.Dblayer.Statement.{read_rows, query_rows}

module _ {A : Type 0} where
  -- Every row is read, each into what the last one left in the loop variable.
  abbrev pub Reads : (A → Record → Option A) → A → List Record → List A → Type 0
  Reads read field [] [] = Unit
  Reads read field [] (x ∷ xs) = ⊥
  Reads read field (row ∷ rows) [] = ⊥
  Reads read field (row ∷ rows) (x ∷ xs) = (read field row ≡ some x) × Reads read x rows xs

  pub read_rows_lem :
      {p : Platform} (read : A → Record → Option A) (field : A) (rows : List Record)
      (xs vec : List A) (s : Session p)
      → Reads read field rows xs
      → read_rows read field rows vec s ≡ (ok (true, vec ++ xs), s)
  unfolding read_rows
  read_rows_lem read field [] [] vec s h = rw append-nil
  read_rows_lem read field [] (x ∷ xs) vec s h = absurd h
  read_rows_lem read field (row ∷ rows) [] vec s h = absurd h
  read_rows_lem read field (row ∷ rows) (x ∷ xs) vec s h = rw (h.0) (
      read_rows_lem read x rows xs (vec ++ x ∷ []) s h.1
      ∙ ap (λ l. (ok (true, l), s)) (append_assoc vec (x ∷ []) xs))

-- Rows that are read back from what was written, whatever the loop variable held.
pub Reads-map :
    {A : Type 0} (read : A → Record → Option A) (cells : A → Record)
    → ((field x : A) → read field (cells x) ≡ some x)
    → (field : A) (xs : List A) → Reads read field (map cells xs) xs
Reads-map read cells back field [] = tt
Reads-map read cells back field (x ∷ xs) = (back field x, Reads-map read cells back x xs)

pub length-map {ℓ κ} :
    {A : Type ℓ} {B : Type κ} (f : A → B) (xs : List A) → length (map f xs) ≡ length xs
length-map f [] = refl
length-map f (x ∷ xs) = ap suc (length-map f xs)

pub take_all {ℓ} : {A : Type ℓ} (xs : List A) (n : ℕ) → length xs ≤ n → take n xs ≡ xs
take_all [] zero h = refl
take_all [] (suc n) h = refl
take_all (x ∷ xs) zero h = absurd (omega arith)
take_all (x ∷ xs) (suc n) h = ap (◌∷◌ x) (take_all xs n (omega arith))

module _ {A : Type 0} {p : Platform} (read : A → Record → Option A) (field : A) (sql : Bytes)
    (vec : List A) (s : Session p) where
  -- The check passed, and the server answered with rows that the reader accepts.
  pub query_rows_success :
      (t : Session p) (fields : List (Bytes × ℕ)) (raws : List (List (Option Bytes))) (xs : List A)
      (server : p.Server)
      → ensure_connected s ≡ (ok tt, t)
      → p.real_query t.server (c_string sql) ≡ (result_set fields raws, server)
      → length raws < 2 ^ 31
      → Reads read field (map (map cell_text) raws) xs
      → query_rows read field sql vec s ≡ (ok (true, vec ++ xs), record t { server = server })
  unfolding query_rows fetched
  query_rows_success t fields raws xs server c q size reads = ground (
    arith,
    ensure_connected_live s,
    length-map (map cell_text) raws,
    take_all (map (map cell_text) raws) (length raws),
    read_rows_lem read field (map (map cell_text) raws) xs vec (record t { server = server }) reads,
  )

  -- The check passed, and the query failed.
  pub query_rows_failure :
      (t : Session p) (server : p.Server)
      → ensure_connected s ≡ (ok tt, t)
      → p.real_query t.server (c_string sql) ≡ (failed, server)
      → query_rows read field sql vec s ≡ (ok (false, vec), record t { server = server })
  unfolding query_rows
  query_rows_failure t server c q = ground (arith, ensure_connected_live s)
