-- ===== src/Dblayer/Order/Reader.antt =====
-- How the readers of the order tables fill a OrderField from a row, column by column.
use vs2017code.Base.{Option, some}
use vs2017code.Dblayer.Platform.{Platform}
use vs2017code.Dblayer.RecordSet.{Record, cell}
use vs2017code.Base.Chain.{◌>>=◌}
use vs2017code.Dblayer.Statement.{first_char, poke_first}
use vs2017code.Dblayer.Order.Fields.{OrderField}

module _ {p : Platform} where
  -- The assignments of one round of the loop to `field`, which holds what the last round left;
  -- `none` is a column that the row does not have.
  unfoldable pub read_order : OrderField p → Record → Option (OrderField p)
  unfolding cell first_char poke_first
  read_order field row = do
    broker_id ← cell row 0
    investor_id ← cell row 1
    instrument_id ← cell row 2
    order_ref ← cell row 3
    user_id ← cell row 4
    order_price_type ← cell row 5
    direction ← cell row 6
    comb_offset_flag ← cell row 7
    comb_hedge_flag ← cell row 8
    limit_price ← cell row 9
    volume_total_original ← cell row 10
    time_condition ← cell row 11
    gtd_date ← cell row 12
    volume_condition ← cell row 13
    min_volume ← cell row 14
    contingent_condition ← cell row 15
    stop_price ← cell row 16
    force_close_reason ← cell row 17
    is_auto_suspend ← cell row 18
    business_unit ← cell row 19
    request_id ← cell row 20
    order_local_id ← cell row 21
    exchange_id ← cell row 22
    participant_id ← cell row 23
    client_id ← cell row 24
    exchange_inst_id ← cell row 25
    trader_id ← cell row 26
    install_id ← cell row 27
    order_submit_status ← cell row 28
    notify_sequence ← cell row 29
    trading_day ← cell row 30
    settlement_id ← cell row 31
    order_sys_id ← cell row 32
    order_source ← cell row 33
    order_status ← cell row 34
    order_type ← cell row 35
    volume_traded ← cell row 36
    volume_total ← cell row 37
    insert_date ← cell row 38
    insert_time ← cell row 39
    active_time ← cell row 40
    suspend_time ← cell row 41
    update_time ← cell row 42
    cancel_time ← cell row 43
    active_trader_id ← cell row 44
    clearing_part_id ← cell row 45
    sequence_no ← cell row 46
    front_id ← cell row 47
    session_id ← cell row 48
    user_product_info ← cell row 49
    status_msg ← cell row 50
    user_force_close ← cell row 51
    active_user_id ← cell row 52
    broker_order_seq ← cell row 53
    relative_order_sys_id ← cell row 54
    zce_total_traded_volume ← cell row 55
    is_swap_order ← cell row 56
    some (record {
      broker_id = broker_id;
      investor_id = investor_id;
      instrument_id = instrument_id;
      order_ref = order_ref;
      user_id = user_id;
      order_price_type = first_char order_price_type;
      direction = first_char direction;
      comb_offset_flag = poke_first field.comb_offset_flag (first_char comb_offset_flag);
      comb_hedge_flag = poke_first field.comb_hedge_flag (first_char comb_hedge_flag);
      limit_price = p.to_double limit_price;
      volume_total_original = p.to_int volume_total_original;
      time_condition = first_char time_condition;
      gtd_date = gtd_date;
      volume_condition = first_char volume_condition;
      min_volume = p.to_int min_volume;
      contingent_condition = first_char contingent_condition;
      stop_price = p.to_double stop_price;
      force_close_reason = first_char force_close_reason;
      is_auto_suspend = p.to_int is_auto_suspend;
      business_unit = business_unit;
      request_id = p.to_int request_id;
      order_local_id = order_local_id;
      exchange_id = exchange_id;
      participant_id = participant_id;
      client_id = client_id;
      exchange_inst_id = exchange_inst_id;
      trader_id = trader_id;
      install_id = p.to_int install_id;
      order_submit_status = first_char order_submit_status;
      notify_sequence = p.to_int notify_sequence;
      trading_day = trading_day;
      settlement_id = p.to_int settlement_id;
      order_sys_id = order_sys_id;
      order_source = first_char order_source;
      order_status = first_char order_status;
      order_type = first_char order_type;
      volume_traded = p.to_int volume_traded;
      volume_total = p.to_int volume_total;
      insert_date = insert_date;
      insert_time = insert_time;
      active_time = active_time;
      suspend_time = suspend_time;
      update_time = update_time;
      cancel_time = cancel_time;
      active_trader_id = active_trader_id;
      clearing_part_id = clearing_part_id;
      sequence_no = p.to_int sequence_no;
      front_id = p.to_int front_id;
      session_id = p.to_int session_id;
      user_product_info = user_product_info;
      status_msg = status_msg;
      user_force_close = p.to_int user_force_close;
      active_user_id = active_user_id;
      broker_order_seq = p.to_int broker_order_seq;
      relative_order_sys_id = relative_order_sys_id;
      zce_total_traded_volume = p.to_int zce_total_traded_volume;
      is_swap_order = p.to_int is_swap_order;
    })
