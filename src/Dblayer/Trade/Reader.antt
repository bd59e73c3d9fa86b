-- ===== src/Dblayer/Trade/Reader.antt =====
-- How the readers of the trade tables fill a TradeField from a row, column by column.
use vs2017code.Base.{Option, some}
use vs2017code.Dblayer.Platform.{Platform}
use vs2017code.Dblayer.RecordSet.{Record, cell}
use vs2017code.Base.Chain.{◌>>=◌}
use vs2017code.Dblayer.Statement.{first_char, poke_first}
use vs2017code.Dblayer.Trade.Fields.{TradeField}

module _ {p : Platform} where
  -- The assignments of one round of the loop to `field`, which holds what the last round left;
  -- `none` is a column that the row does not have.
  unfoldable pub read_trade : TradeField p → Record → Option (TradeField p)
  unfolding cell first_char poke_first
  read_trade field row = do
    broker_id ← cell row 0
    investor_id ← cell row 1
    instrument_id ← cell row 2
    order_ref ← cell row 3
    user_id ← cell row 4
    exchange_id ← cell row 5
    trade_id ← cell row 6
    direction ← cell row 7
    order_sys_id ← cell row 8
    participant_id ← cell row 9
    client_id ← cell row 10
    trading_role ← cell row 11
    exchange_inst_id ← cell row 12
    offset_flag ← cell row 13
    hedge_flag ← cell row 14
    price ← cell row 15
    volume ← cell row 16
    trade_date ← cell row 17
    trade_time ← cell row 18
    trade_type ← cell row 19
    price_source ← cell row 20
    order_local_id ← cell row 21
    clearing_part_id ← cell row 22
    business_unit ← cell row 23
    sequence_no ← cell row 24
    trading_day ← cell row 25
    settlement_id ← cell row 26
    broker_order_seq ← cell row 27
    trade_source ← cell row 28
    close_profit ← cell row 29
    commission ← cell row 30
    some (record {
      broker_id = broker_id;
      investor_id = investor_id;
      instrument_id = instrument_id;
      order_ref = order_ref;
      user_id = user_id;
      exchange_id = exchange_id;
      trade_id = trade_id;
      direction = first_char direction;
      order_sys_id = order_sys_id;
      participant_id = participant_id;
      client_id = client_id;
      trading_role = first_char trading_role;
      exchange_inst_id = exchange_inst_id;
      offset_flag = first_char offset_flag;
      hedge_flag = first_char hedge_flag;
      price = p.to_double price;
      volume = p.to_int volume;
      trade_date = trade_date;
      trade_time = trade_time;
      trade_type = first_char trade_type;
      price_source = first_char price_source;
      order_local_id = order_local_id;
      clearing_part_id = clearing_part_id;
      business_unit = business_unit;
      sequence_no = p.to_int sequence_no;
      trading_day = trading_day;
      settlement_id = p.to_int settlement_id;
      broker_order_seq = p.to_int broker_order_seq;
      trade_source = first_char trade_source;
      close_profit = p.to_double close_profit;
      commission = p.to_double commission;
    })
