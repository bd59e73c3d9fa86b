-- ===== src/Dblayer/RecordSet/FieldKinds.antt =====
-- CField of dblayer/src/mysql/MysqlField.cpp: what the type of a field is, by number and by name. The
-- numbers of the types and the macros IS_NUM and IS_BLOB are those of the MySQL headers.
use vs2017code.Base.{
  ℕ, ◌≡◌, ap, Bytes, Bool, ◌||◌, Option, none, some, ◌==◌, get_elem?, ℤ, pos, negsuc,
}
use vs2017code.Base.Chain.{◌>>=◌}
use vs2017code.Dblayer.RecordSet.{RecordSet, get_field_no}

pub record FieldTypes : Type 0 where
  pub date_type : ℕ
  pub datetime_type : ℕ
  pub string_type : ℕ
  pub var_string_type : ℕ
  pub char_type : ℕ
  pub num_macro : ℕ → Bool
  pub blob_macro : ℕ → Bool

-- `m_type[num]`; `none` is a read outside the vector.
type_at : RecordSet → ℤ → Option ℕ
type_at rs (pos i) = get_elem? rs.types i
type_at rs (negsuc i) = none

module _ (types : FieldTypes) (rs : RecordSet) where
  is_num : ℤ → Option Bool
  unfolding type_at
  is_num num = do kind ← type_at rs num; some (types.num_macro kind)

  is_date : ℤ → Option Bool
  unfolding type_at
  is_date num = do
    kind ← type_at rs num
    some (types.date_type == kind || types.datetime_type == kind)

  is_char : ℤ → Option Bool
  unfolding type_at
  is_char num = do
    kind ← type_at rs num
    some (kind == types.string_type || (kind == types.var_string_type || kind == types.char_type))

  is_blob : ℤ → Option Bool
  unfolding type_at
  is_blob num = do kind ← type_at rs num; some (types.blob_macro kind)

  is_num_named : Bytes → Option Bool
  unfolding is_num
  is_num_named name = is_num (get_field_no rs.names name)

  is_date_named : Bytes → Option Bool
  unfolding is_date
  is_date_named name = is_date (get_field_no rs.names name)

  is_char_named : Bytes → Option Bool
  unfolding is_char
  is_char_named name = is_char (get_field_no rs.names name)

  is_blob_named : Bytes → Option Bool
  unfolding is_blob
  is_blob_named name = is_blob (get_field_no rs.names name)

  -- A name that is no field makes each test read at -1.
  unknown_name :
      (name : Bytes) (k : ℕ)
      → get_field_no rs.names name ≡ negsuc k
      → (is_num_named name ≡ none)
        × ((is_date_named name ≡ none)
            × ((is_char_named name ≡ none) × (is_blob_named name ≡ none)))
  unfolding is_num_named is_date_named is_char_named is_blob_named type_at is_num is_date is_char
      is_blob
  unknown_name name k h = (ap is_num h, (ap is_date h, (ap is_char h, ap is_blob h)))
