-- ===== src/Dblayer/Exchange/Fields.antt =====
-- ExchangeInfoField as dblayer/src/mysql/DBOperation.cpp uses it: the fields that it writes to the table of exchanges
-- and reads from it, in the order of the columns. The struct is declared in pbserdes/ETPTypes.h, outside
-- the repository: a `char` array is the text before its NUL, and its capacity is not modelled.
use vs2017code.Base.{Bytes}
use vs2017code.Dblayer.Platform.{Platform}

pub record ExchangeInfoField (p : Platform) : Type 0 where
  pub exchange_id : Bytes
  pub exchange_name : Bytes
  pub exch_type_id : p.Int
  pub currency_code : Bytes
  pub is_margin_favourable : p.Int
  pub comment : Bytes
