-- ===== src/Dblayer/Broker/Fields.antt =====
-- BrokerInfoField as dblayer/src/mysql/DBOperation.cpp uses it: the fields that it writes to the table of brokers
-- and reads from it, in the order of the columns. The struct is declared in pbserdes/ETPTypes.h, outside
-- the repository: a `char` array is the text before its NUL, and its capacity is not modelled.
use vs2017code.Base.{Bytes}
use vs2017code.Dblayer.Platform.{Platform}

pub record BrokerInfoField (p : Platform) : Type 0 where
  pub broker_id : Bytes
  pub short_name : Bytes
  pub name : Bytes
  pub type : Bytes
  pub address : Bytes
  pub is_active : p.Int
  pub comment : Bytes
