-- ===== src/Dblayer/TradeCounter/Reader.antt =====
-- How the readers of the table of trade counters fill a TradeCounterField from a row, column by column.
use vs2017code.Base.{Option, some}
use vs2017code.Dblayer.Platform.{Platform}
use vs2017code.Dblayer.RecordSet.{Record, cell}
use vs2017code.Base.Chain.{◌>>=◌}
use vs2017code.Dblayer.Statement.{first_char, poke_first}
use vs2017code.Dblayer.TradeCounter.Fields.{TradeCounterField}

module _ {p : Platform} where
  -- The assignments of one round of the loop to `field`, which holds what the last round left;
  -- `none` is a column that the row does not have.
  unfoldable pub read_trade_counter : TradeCounterField p → Record → Option (TradeCounterField p)
  unfolding cell first_char poke_first
  read_trade_counter field row = do
    trade_counter_id ← cell row 0
    broker_id ← cell row 1
    name ← cell row 2
    protocol ← cell row 3
    front_addr ← cell row 4
    app_id ← cell row 5
    relay_app_id ← cell row 6
    auth_code ← cell row 7
    is_default ← cell row 8
    some (record {
      trade_counter_id = p.to_int trade_counter_id;
      broker_id = broker_id;
      name = name;
      protocol = protocol;
      front_addr = front_addr;
      app_id = app_id;
      relay_app_id = relay_app_id;
      auth_code = auth_code;
      is_default = p.to_int is_default;
    })
