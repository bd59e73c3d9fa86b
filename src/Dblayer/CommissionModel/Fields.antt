-- ===== src/Dblayer/CommissionModel/Fields.antt =====
-- CommissionRateModelInfoField as dblayer/src/mysql/DBOperation.cpp uses it: the fields that it writes to the table of commission rate models
-- and reads from it, in the order of the columns. The struct is declared in pbserdes/ETPTypes.h, outside
-- the repository: a `char` array is the text before its NUL, and its capacity is not modelled.
use vs2017code.Base.{Bytes}
use vs2017code.Dblayer.Platform.{Platform}

pub record CommissionRateModelInfoField (p : Platform) : Type 0 where
  pub commission_rate_model_id : p.Int
  pub commission_rate_model_name : Bytes
  pub creator : Bytes
  pub create_date : Bytes
  pub comment : Bytes
  pub is_basics_model : p.Int
  pub base_on_basics_by_money : p.Double
  pub base_on_basics_by_volume : p.Double
