-- ===== src/Dblayer/RecordSet.antt =====
-- dblayer/src/mysql/{MysqlRecordSet,MysqlRecord,MysqlField}.cpp: the rows of a query, their fields, and
-- the cursor over them. `m_pos` is a 64-bit `unsigned long`.
pub mod Cursor
pub mod Fields
pub mod FieldKinds
use vs2017code.Base.{
  ℕ, zero, suc, ◌+◌, ◌-◌, ◌%◌, ◌^◌, Bytes, Bool, true, false, List, [], ◌∷◌, ◌++◌, map, Option,
  none, some, length, get_elem?, bytes_eq, codes, c_string, ℤ, pos, negsuc, to_int32, to_int64,
  to_word64, is_ge, is_negative, ◌==◌, if◌then◌else◌,
}
use vs2017code.Dblayer.Platform.{
  Platform, Reply, failed, affected, result_set, Session, Outcome, M, return, undefined, ◌>>=◌,
}
use vs2017code.Dblayer.Database.{query, minus_one}

-- A CRecord: its texts. The fields that it points to are those of its record set.
abbrev pub Record : Type 0
Record = List Bytes

pub record RecordSet : Type 0 where
  pub rows : List Record
  pub position : ℕ
  pub record_count : ℤ
  pub field_num : ℕ
  -- the vectors of `m_field`
  pub names : List Bytes
  pub types : List ℕ

pub new_record_set : RecordSet
new_record_set = record {
  rows = [];
  position = 0;
  record_count = pos 0;
  field_num = 0;
  names = [];
  types = [];
}

-- `if (m_row[k] == NULL || !strlen(m_row[k])) SetData("") else SetData(m_row[k])`.
unfoldable pub cell_text : Option Bytes → Bytes
cell_text none = []
cell_text (some bytes) = c_string bytes

-- What ExecuteSQL stores of a result set; the vectors of `m_field` grow.
unfoldable pub fetched : RecordSet → List (Bytes × ℕ) → List (List (Option Bytes)) → RecordSet
unfolding cell_text
fetched rs fields rows = record rs {
  rows = map (map cell_text) rows;
  record_count = to_int32 (length rows);
  field_num = length fields;
  names = rs.names ++ map (λ f. f.0) fields;
  types = rs.types ++ map (λ f. f.1) fields;
}

module _ {p : Platform} where
  -- A statement without a result set leaves `mysql_store_result` NULL, which is then read.
  unfoldable pub execute_sql : RecordSet → Bytes → M p (ℤ × RecordSet)
  unfolding query fetched
  execute_sql rs sql = do
    reply ← query (c_string sql)
    elim reply [
      | failed ↦ return (minus_one, rs)
      | affected n ↦ undefined
      | result_set fields rows ↦ return (to_int32 (length rows), fetched rs fields rows)
    ]

-- CField::GetField_NO: the first field of that name, or -1. Tables have fewer than 2^31 fields.
unfoldable pub field_no_from : ℕ → List Bytes → Bytes → ℤ
field_no_from i [] name = minus_one
field_no_from i (n ∷ names) name =
    if bytes_eq n name then pos i else field_no_from (i + 1) names name

unfoldable pub get_field_no : List Bytes → Bytes → ℤ
unfolding field_no_from
get_field_no names name = field_no_from 0 names name

-- CRecord::operator[]: by number, and by name over the fields of its record set; `none` is a read
-- outside the vector.
unfoldable pub cell : Record → ℕ → Option Bytes
cell row i = get_elem? row i

pub cell_named : List Bytes → Record → Bytes → Option Bytes
unfolding cell
cell_named names row name = elim (get_field_no names name) [ pos i ↦ cell row i | negsuc n ↦ none ]

-- CRecord::GetTabText.
pub tab_text : Record → Bytes
tab_text [] = []
tab_text (v ∷ []) = v
tab_text (v ∷ w ∷ row) = v ++ (codes "\t" ++ tab_text (w ∷ row))

-- The cursor.
pub move_next : RecordSet → RecordSet
move_next rs = record rs { position = (rs.position + 1) % 2 ^ 64 }

-- `m_s.size() - 1`.
pub last_position : RecordSet → ℕ
last_position rs = (length rs.rows + 2 ^ 64 - 1) % 2 ^ 64

-- `int l = m_pos + length;`
pub move_target : RecordSet → ℤ → ℤ
move_target rs distance = to_int32 ((rs.position + to_word64 distance) % 2 ^ 64)

pub move : RecordSet → ℤ → RecordSet
unfolding move_target last_position
move rs distance = elim (move_target rs distance) [
  | negsuc n ↦ record rs { position = 0 }
  | pos l ↦
      if is_ge (pos l) (to_int32 (length rs.rows))
      then record rs { position = last_position rs }
      else record rs { position = l }
]

pub move_first : RecordSet → RecordSet
move_first rs = record rs { position = 0 }

pub move_last : RecordSet → RecordSet
unfolding last_position
move_last rs = record rs { position = last_position rs }

pub is_eof : RecordSet → Bool
is_eof rs = rs.position == length rs.rows
