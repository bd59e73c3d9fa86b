-- ===== src/Dblayer/MarginModel/Fields.antt =====
-- MarginRateModelInfoField as dblayer/src/mysql/DBOperation.cpp uses it: the fields that it writes to the table of margin rate models
-- and reads from it, in the order of the columns. The struct is declared in pbserdes/ETPTypes.h, outside
-- the repository: a `char` array is the text before its NUL, and its capacity is not modelled.
use vs2017code.Base.{Bytes}
use vs2017code.Dblayer.Platform.{Platform}

pub record MarginRateModelInfoField (p : Platform) : Type 0 where
  pub margin_rate_model_id : p.Int
  pub margin_rate_model_name : Bytes
  pub creator : Bytes
  pub create_date : Bytes
  pub comment : Bytes
  pub is_basics_model : p.Int
  pub base_on_basics : p.Double
