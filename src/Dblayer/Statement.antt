-- ===== src/Dblayer/Statement.antt =====
-- The statement texts of DBOperation.cpp, and the query that its readers are made of.
pub mod Values
pub mod Rows
use vs2017code.Base.{
  ℕ, zero, suc, Bytes, codes, Bool, true, false, List, [], ◌∷◌, ◌++◌, Option, none, some, take,
  get_elem?, get_or, ℤ, pos, negsuc, bytes_eq, ◌||◌, if◌then◌else◌,
}
use vs2017code.Dblayer.Platform.{
  Platform, Session, Outcome, M, return, at_index, catch_all, ◌>>=◌, ◌>>◌, continue_with,
}
use vs2017code.Dblayer.RecordSet.{Record, RecordSet, execute_sql, new_record_set, cell}
use vs2017code.Dblayer.Database.{minus_one}
use vs2017code.Dblayer.Operation.{ensure_connected}

-- The values of a statement, with `", "` between them.
pub quoted_values : List Bytes → Bytes
quoted_values [] = []
quoted_values (v ∷ []) = v
quoted_values (v ∷ w ∷ values) = v ++ (codes "\", \"" ++ quoted_values (w ∷ values))

-- "REPLACE INTO `table` VALUES ( "…", …, "…" );"
pub replace_into : Bytes → List Bytes → Bytes
unfolding quoted_values
replace_into table values =
    codes "REPLACE INTO `"
    ++ (table ++ (codes "` VALUES ( \"" ++ (quoted_values values ++ codes "\" );")))

-- "SELECT * FROM `table` WHERE condition;", and the same without a condition.
pub select_where : Bytes → Bytes → Bytes
select_where table condition =
    codes "SELECT * FROM `" ++ (table ++ (codes "` WHERE " ++ (condition ++ codes ";")))

pub select_all : Bytes → Bytes
select_all table = codes "SELECT * FROM `" ++ (table ++ codes "`;")

-- "DELETE FROM `table` WHERE condition;" and "truncate table `table`;".
pub delete_where : Bytes → Bytes → Bytes
delete_where table condition =
    codes "DELETE FROM `" ++ (table ++ (codes "` WHERE " ++ (condition ++ codes ";")))

pub truncate_table : Bytes → Bytes
truncate_table table = codes "truncate table `" ++ (table ++ codes "`;")

-- "SELECT expression FROM `table`;"
pub select_expression : Bytes → Bytes → Bytes
select_expression expression table =
    codes "SELECT " ++ (expression ++ (codes " FROM `" ++ (table ++ codes "`;")))

-- "column = 'value'", and conditions joined by AND.
pub equals : Bytes → Bytes → Bytes
equals column value = column ++ (codes " = '" ++ (value ++ codes "'"))

infixr 60 ◌and◌
pub ◌and◌ : Bytes → Bytes → Bytes
a and b = a ++ (codes " AND " ++ b)

-- "BrokerID = '…' AND InvestorID = '…'".
pub of_investor : Bytes → Bytes → Bytes
of_investor broker_id investor_id =
    equals (codes "BrokerID") broker_id and equals (codes "InvestorID") investor_id

-- `s[0]` of a `std::string`, which is NUL when the string is empty.
unfoldable pub first_char : Bytes → ℕ
first_char s = get_or s 0 0

-- A write of the first element of a `char` array.
unfoldable pub poke_first : Bytes → ℕ → Bytes
poke_first [] c = c ∷ []
poke_first (b ∷ bytes) c = c ∷ bytes

-- A `set<string>`, its order left out.
contains_text : Bytes → List Bytes → Bool
contains_text text [] = false
contains_text text (t ∷ set) = bytes_eq t text || contains_text text set

pub insert_text : Bytes → List Bytes → List Bytes
unfolding contains_text
insert_text text set = if contains_text text set then set else text ∷ set

module _ {p : Platform} {A : Type 0} where
  -- `for (row = 0; row < recordCount; row++) { …; vec.push_back(field); }`: the loop variable `field`
  -- is filled again and again, and a read outside a record is undefined.
  unfoldable pub read_rows :
      (A → Record → Option A) → A → List Record → List A → M p (Bool × List A)
  read_rows read field [] vec = return (true, vec)
  read_rows read field (row ∷ rows) vec = do
    field' ← at_index (read field row)
    read_rows read field' rows (vec ++ field' ∷ [])

  -- The body that the readers of a table share: the check of the connection, the query, the early
  -- return on a failure, the loop; `catch (...)` returns false with the vector as it was.
  unfoldable pub query_rows : (A → Record → Option A) → A → Bytes → List A → M p (Bool × List A)
  unfolding execute_sql
  query_rows read field sql vec =
      catch_all (false, vec)
        (do
          ensure_connected
          answer ← execute_sql new_record_set sql
          elim answer.0 [
            | negsuc n ↦ return (false, vec)
            | pos count ↦ read_rows read field (take count answer.1.rows) vec
          ])

module _ {p : Platform} where
  -- The readers of one number, `SELECT MAX(…)`: -1 on a failure, 0 without a row.
  pub query_max : Bytes → M p ℤ
  query_max sql = catch_all minus_one (do
    ensure_connected
    answer ← execute_sql new_record_set sql
    elim answer.0 [
      | negsuc n ↦ return minus_one
      | pos count ↦ elim count [
        | zero ↦ return (pos 0)
        | suc more ↦ do
          row ← at_index (get_elem? answer.1.rows 0)
          text ← at_index (cell row 0)
          return (p.to_long_long text)
      ]
    ])

  -- `for (row = 0; …) set.insert(recordSet[row][0]);`
  insert_first_cells : List Record → List Bytes → M p (Bool × List Bytes)
  insert_first_cells [] set = return (true, set)
  insert_first_cells (row ∷ rows) set = do
    text ← at_index (cell row 0)
    insert_first_cells rows (insert_text text set)

  -- The readers of the investors of a table.
  pub query_investors : Bytes → List Bytes → M p (Bool × List Bytes)
  query_investors sql set =
      catch_all (false, set)
        (do
          ensure_connected
          answer ← execute_sql new_record_set sql
          elim answer.0 [
            | negsuc n ↦ return (false, set)
            | pos count ↦ insert_first_cells (take count answer.1.rows) set
          ])
