-- ===== src/Tests/Records/Order.antt =====
-- A record of the order tables whose fields are all different, for the tests.
use vs2017code.Base.{codes}
use vs2017code.Dblayer.Order.Fields.{OrderField}
use vs2017code.Tests.Server.{scripted}

abbrev pub some_order : OrderField scripted
some_order = record {
  broker_id = codes "o0";
  investor_id = codes "o1";
  instrument_id = codes "o2";
  order_ref = codes "o3";
  user_id = codes "o4";
  order_price_type = 53;
  direction = 54;
  comb_offset_flag = codes "o7";
  comb_hedge_flag = codes "o8";
  limit_price = 9;
  volume_total_original = 0;
  time_condition = 59;
  gtd_date = codes "o12";
  volume_condition = 61;
  min_volume = 4;
  contingent_condition = 63;
  stop_price = 6;
  force_close_reason = 65;
  is_auto_suspend = 8;
  business_unit = codes "o19";
  request_id = 0;
  order_local_id = codes "o21";
  exchange_id = codes "o22";
  participant_id = codes "o23";
  client_id = codes "o24";
  exchange_inst_id = codes "o25";
  trader_id = codes "o26";
  install_id = 7;
  order_submit_status = 76;
  notify_sequence = 9;
  trading_day = codes "o30";
  settlement_id = 1;
  order_sys_id = codes "o32";
  order_source = 81;
  order_status = 82;
  order_type = 83;
  volume_traded = 6;
  volume_total = 7;
  insert_date = codes "o38";
  insert_time = codes "o39";
  active_time = codes "o40";
  suspend_time = codes "o41";
  update_time = codes "o42";
  cancel_time = codes "o43";
  active_trader_id = codes "o44";
  clearing_part_id = codes "o45";
  sequence_no = 6;
  front_id = 7;
  session_id = 8;
  user_product_info = codes "o49";
  status_msg = codes "o50";
  user_force_close = 1;
  active_user_id = codes "o52";
  broker_order_seq = 3;
  relative_order_sys_id = codes "o54";
  zce_total_traded_volume = 5;
  is_swap_order = 6;
}
