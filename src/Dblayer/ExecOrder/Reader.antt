-- ===== src/Dblayer/ExecOrder/Reader.antt =====
-- How the readers of the tables of exercise orders fill a ExecOrderField from a row, column by column.
use vs2017code.Base.{Option, some}
use vs2017code.Dblayer.Platform.{Platform}
use vs2017code.Dblayer.RecordSet.{Record, cell}
use vs2017code.Base.Chain.{◌>>=◌}
use vs2017code.Dblayer.Statement.{first_char, poke_first}
use vs2017code.Dblayer.ExecOrder.Fields.{ExecOrderField}

module _ {p : Platform} where
  -- The assignments of one round of the loop to `field`, which holds what the last round left;
  -- `none` is a column that the row does not have.
  unfoldable pub read_exec_order : ExecOrderField p → Record → Option (ExecOrderField p)
  unfolding cell first_char poke_first
  read_exec_order field row = do
    broker_id ← cell row 0
    investor_id ← cell row 1
    instrument_id ← cell row 2
    exec_order_ref ← cell row 3
    user_id ← cell row 4
    volume ← cell row 5
    request_id ← cell row 6
    business_unit ← cell row 7
    offset_flag ← cell row 8
    hedge_flag ← cell row 9
    action_type ← cell row 10
    posi_direction ← cell row 11
    reserve_position_flag ← cell row 12
    close_flag ← cell row 13
    exec_order_local_id ← cell row 14
    exchange_id ← cell row 15
    participant_id ← cell row 16
    client_id ← cell row 17
    exchange_inst_id ← cell row 18
    trader_id ← cell row 19
    install_id ← cell row 20
    order_submit_status ← cell row 21
    notify_sequence ← cell row 22
    trading_day ← cell row 23
    settlement_id ← cell row 24
    exec_order_sys_id ← cell row 25
    insert_date ← cell row 26
    insert_time ← cell row 27
    cancel_time ← cell row 28
    exec_result ← cell row 29
    clearing_part_id ← cell row 30
    sequence_no ← cell row 31
    front_id ← cell row 32
    session_id ← cell row 33
    user_product_info ← cell row 34
    status_msg ← cell row 35
    active_user_id ← cell row 36
    broker_exec_order_seq ← cell row 37
    branch_id ← cell row 38
    invest_unit_id ← cell row 39
    account_id ← cell row 40
    currency_id ← cell row 41
    ip_address ← cell row 42
    mac_address ← cell row 43
    some (record {
      broker_id = broker_id;
      investor_id = investor_id;
      instrument_id = instrument_id;
      exec_order_ref = exec_order_ref;
      user_id = user_id;
      volume = p.to_int volume;
      request_id = p.to_int request_id;
      business_unit = business_unit;
      offset_flag = offset_flag;
      hedge_flag = hedge_flag;
      action_type = action_type;
      posi_direction = posi_direction;
      reserve_position_flag = reserve_position_flag;
      close_flag = close_flag;
      exec_order_local_id = exec_order_local_id;
      exchange_id = exchange_id;
      participant_id = participant_id;
      client_id = client_id;
      exchange_inst_id = exchange_inst_id;
      trader_id = trader_id;
      install_id = p.to_int install_id;
      order_submit_status = order_submit_status;
      notify_sequence = p.to_int notify_sequence;
      trading_day = trading_day;
      settlement_id = p.to_int settlement_id;
      exec_order_sys_id = exec_order_sys_id;
      insert_date = insert_date;
      insert_time = insert_time;
      cancel_time = cancel_time;
      exec_result = exec_result;
      clearing_part_id = clearing_part_id;
      sequence_no = p.to_int sequence_no;
      front_id = p.to_int front_id;
      session_id = p.to_int session_id;
      user_product_info = user_product_info;
      status_msg = status_msg;
      active_user_id = active_user_id;
      broker_exec_order_seq = p.to_int broker_exec_order_seq;
      branch_id = branch_id;
      invest_unit_id = invest_unit_id;
      account_id = account_id;
      currency_id = currency_id;
      ip_address = ip_address;
      mac_address = mac_address;
    })
