-- ===== src/Dblayer/CloudOrder/Reader.antt =====
-- How the readers of the tables of cloud orders fill a CloudOrderField from a row, column by column.
use vs2017code.Base.{Option, some}
use vs2017code.Dblayer.Platform.{Platform}
use vs2017code.Dblayer.RecordSet.{Record, cell}
use vs2017code.Base.Chain.{◌>>=◌}
use vs2017code.Dblayer.Statement.{first_char, poke_first}
use vs2017code.Dblayer.CloudOrder.Fields.{CloudOrderField}

module _ {p : Platform} where
  -- The assignments of one round of the loop to `field`, which holds what the last round left;
  -- `none` is a column that the row does not have.
  unfoldable pub read_cloud_order : CloudOrderField p → Record → Option (CloudOrderField p)
  unfolding cell first_char poke_first
  read_cloud_order field row = do
    cloud_order_id ← cell row 0
    broker_id ← cell row 1
    investor_id ← cell row 2
    exchange_id ← cell row 3
    instrument_id ← cell row 4
    direction ← cell row 5
    offset_flag ← cell row 6
    hedge_flag ← cell row 7
    type ← cell row 8
    triggering_time ← cell row 9
    validity_period_type ← cell row 10
    insert_date ← cell row 11
    insert_time ← cell row 12
    price ← cell row 13
    total_volume ← cell row 14
    traded_volume ← cell row 15
    frozen_volume ← cell row 16
    status ← cell row 17
    status_msg ← cell row 18
    price_type ← cell row 19
    triggering_price_type ← cell row 20
    min_price ← cell row 21
    max_price ← cell row 22
    lead_order_insert_tick ← cell row 23
    step ← cell row 24
    max_winning_price ← cell row 25
    stop_winning_tick_num ← cell row 26
    stop_lossing_tick_num ← cell row 27
    stop_winning_price ← cell row 28
    stop_lossing_price ← cell row 29
    triggering_date ← cell row 30
    some (record {
      cloud_order_id = p.to_int cloud_order_id;
      broker_id = broker_id;
      investor_id = investor_id;
      exchange_id = exchange_id;
      instrument_id = instrument_id;
      direction = direction;
      offset_flag = offset_flag;
      hedge_flag = hedge_flag;
      type = type;
      triggering_time = triggering_time;
      validity_period_type = validity_period_type;
      insert_date = insert_date;
      insert_time = insert_time;
      price = p.to_double price;
      total_volume = p.to_int total_volume;
      traded_volume = p.to_int traded_volume;
      frozen_volume = p.to_int frozen_volume;
      status = p.to_int status;
      status_msg = status_msg;
      price_type = price_type;
      triggering_price_type = triggering_price_type;
      min_price = p.to_double min_price;
      max_price = p.to_double max_price;
      lead_order_insert_tick = p.to_int lead_order_insert_tick;
      step = p.to_int step;
      max_winning_price = p.to_double max_winning_price;
      stop_winning_tick_num = p.to_int stop_winning_tick_num;
      stop_lossing_tick_num = p.to_int stop_lossing_tick_num;
      stop_winning_price = p.to_double stop_winning_price;
      stop_lossing_price = p.to_double stop_lossing_price;
      triggering_date = triggering_date;
    })
