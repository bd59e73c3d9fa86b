-- ===== src/Tests/Records/Tables.antt =====
-- Records of further tables whose fields are all different, for the tests.
use vs2017code.Base.{codes}
use vs2017code.Dblayer.Investor.Fields.{InvestorInfoField}
use vs2017code.Dblayer.CloudOrder.Fields.{CloudOrderField}
use vs2017code.Dblayer.MarginRate.Fields.{MarginRateInfoField}
use vs2017code.Dblayer.MarginModel.Fields.{MarginRateModelInfoField}
use vs2017code.Dblayer.TradeRisk.Fields.{TradeRiskTmplField}
use vs2017code.Tests.Server.{scripted}

abbrev pub first_investor : InvestorInfoField scripted
first_investor = record {
  id = 0;
  investor_id = codes "f1";
  investor_name = codes "f2";
  broker_id = codes "f3";
  broker_name = codes "f4";
  password = codes "f5";
  type = codes "f6";
  open_date = codes "f7";
  currency_code = codes "f8";
  status = codes "f9";
  margin_rate_model_id = 0;
  margin_rate_model_comment = codes "f11";
  commission_rate_model_id = 2;
  commission_rate_model_comment = codes "f13";
  initial = 4;
  comment = codes "f15";
  trade_counter_id = 6;
}

abbrev pub second_investor : InvestorInfoField scripted
second_investor = record {
  id = 2;
  investor_id = codes "g1";
  investor_name = codes "g2";
  broker_id = codes "g3";
  broker_name = codes "g4";
  password = codes "g5";
  type = codes "g6";
  open_date = codes "g7";
  currency_code = codes "g8";
  status = codes "g9";
  margin_rate_model_id = 0;
  margin_rate_model_comment = codes "g11";
  commission_rate_model_id = 2;
  commission_rate_model_comment = codes "g13";
  initial = 4;
  comment = codes "g15";
  trade_counter_id = 7;
}

abbrev pub new_cloud_order : CloudOrderField scripted
new_cloud_order = record {
  cloud_order_id = 0;
  broker_id = codes "f1";
  investor_id = codes "f2";
  exchange_id = codes "f3";
  instrument_id = codes "f4";
  direction = codes "f5";
  offset_flag = codes "f6";
  hedge_flag = codes "f7";
  type = codes "f8";
  triggering_time = codes "f9";
  validity_period_type = codes "f10";
  insert_date = codes "f11";
  insert_time = codes "f12";
  price = 3;
  total_volume = 4;
  traded_volume = 5;
  frozen_volume = 6;
  status = 7;
  status_msg = codes "f18";
  price_type = codes "f19";
  triggering_price_type = codes "f20";
  min_price = 1;
  max_price = 2;
  lead_order_insert_tick = 3;
  step = 4;
  max_winning_price = 5;
  stop_winning_tick_num = 6;
  stop_lossing_tick_num = 7;
  stop_winning_price = 8;
  stop_lossing_price = 9;
  triggering_date = codes "f30";
}

abbrev pub some_margin_rate : MarginRateInfoField scripted
some_margin_rate = record {
  margin_rate_model_id = 0;
  instrument_id = codes "f1";
  investor_range = codes "f2";
  hedge_flag = codes "f3";
  long_margin_ratio_by_money = 4;
  long_margin_ratio_by_volume = 5;
  short_margin_ratio_by_money = 6;
  short_margin_ratio_by_volume = 7;
  is_relative = 8;
}

abbrev pub some_margin_model : MarginRateModelInfoField scripted
some_margin_model = record {
  margin_rate_model_id = 0;
  margin_rate_model_name = codes "f1";
  creator = codes "f2";
  create_date = codes "f3";
  comment = codes "f4";
  is_basics_model = 5;
  base_on_basics = 2;
}

abbrev pub some_template : TradeRiskTmplField scripted
some_template = record {
  broker_id = codes "f0";
  investor_id = codes "f1";
  client_type = 2;
  time = codes "f3";
  trade_risk_tmpl_txt = codes "f4";
}
