-- ===== src/Dblayer/TradeCounter/Fields.antt =====
-- TradeCounterField as dblayer/src/mysql/DBOperation.cpp uses it: the fields that it writes to the table of trade counters
-- and reads from it, in the order of the columns. The struct is declared in pbserdes/ETPTypes.h, outside
-- the repository: a `char` array is the text before its NUL, and its capacity is not modelled.
use vs2017code.Base.{Bytes, List, [], ◌∷◌}
use vs2017code.Dblayer.Platform.{Platform}
use vs2017code.Dblayer.NewId.{id_text}

pub record TradeCounterField (p : Platform) : Type 0 where
  pub trade_counter_id : p.Int
  pub broker_id : Bytes
  pub name : Bytes
  pub protocol : Bytes
  pub front_addr : Bytes
  pub app_id : Bytes
  pub relay_app_id : Bytes
  pub auth_code : Bytes
  pub is_default : p.Int

module _ {p : Platform} where
  -- The values of the statement, one for each column.
  unfoldable pub trade_counter_cells : TradeCounterField p → List Bytes
  unfolding id_text
  trade_counter_cells counter =
      id_text p counter.trade_counter_id
      ∷ counter.broker_id
      ∷ counter.name
      ∷ counter.protocol
      ∷ counter.front_addr
      ∷ counter.app_id
      ∷ counter.relay_app_id
      ∷ counter.auth_code
      ∷ p.print_int counter.is_default
      ∷ []
