-- ===== src/Dblayer/Broker/Reader.antt =====
-- How the readers of the table of brokers fill a BrokerInfoField from a row, column by column.
use vs2017code.Base.{Option, some}
use vs2017code.Dblayer.Platform.{Platform}
use vs2017code.Dblayer.RecordSet.{Record, cell}
use vs2017code.Base.Chain.{◌>>=◌}
use vs2017code.Dblayer.Statement.{first_char, poke_first}
use vs2017code.Dblayer.Broker.Fields.{BrokerInfoField}

module _ {p : Platform} where
  -- The assignments of one round of the loop to `field`, which holds what the last round left;
  -- `none` is a column that the row does not have.
  unfoldable pub read_broker_info : BrokerInfoField p → Record → Option (BrokerInfoField p)
  unfolding cell first_char poke_first
  read_broker_info field row = do
    broker_id ← cell row 1
    short_name ← cell row 2
    name ← cell row 3
    type ← cell row 4
    address ← cell row 5
    is_active ← cell row 6
    comment ← cell row 7
    some (record {
      broker_id = broker_id;
      short_name = short_name;
      name = name;
      type = type;
      address = address;
      is_active = p.to_int is_active;
      comment = comment;
    })
