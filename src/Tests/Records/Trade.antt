-- ===== src/Tests/Records/Trade.antt =====
-- A record of the trade tables whose fields are all different, for the tests.
use vs2017code.Base.{codes}
use vs2017code.Dblayer.Trade.Fields.{TradeField}
use vs2017code.Tests.Server.{scripted}

abbrev pub some_trade : TradeField scripted
some_trade = record {
  broker_id = codes "t0";
  investor_id = codes "t1";
  instrument_id = codes "t2";
  order_ref = codes "t3";
  user_id = codes "t4";
  exchange_id = codes "t5";
  trade_id = codes "t6";
  direction = 55;
  order_sys_id = codes "t8";
  participant_id = codes "t9";
  client_id = codes "t10";
  trading_role = 59;
  exchange_inst_id = codes "t12";
  offset_flag = 61;
  hedge_flag = 62;
  price = 5;
  volume = 6;
  trade_date = codes "t17";
  trade_time = codes "t18";
  trade_type = 67;
  price_source = 68;
  order_local_id = codes "t21";
  clearing_part_id = codes "t22";
  business_unit = codes "t23";
  sequence_no = 4;
  trading_day = codes "t25";
  settlement_id = 6;
  broker_order_seq = 7;
  trade_source = 76;
  close_profit = 9;
  commission = 0;
}
