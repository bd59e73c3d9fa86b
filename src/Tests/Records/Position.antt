-- ===== src/Tests/Records/Position.antt =====
-- A record of the position tables whose fields are all different, for the tests.
use vs2017code.Base.{codes}
use vs2017code.Dblayer.Position.Fields.{InvestorPositionField}
use vs2017code.Tests.Server.{scripted}

abbrev pub some_position : InvestorPositionField scripted
some_position = record {
  trading_day = codes "p0";
  broker_id = codes "p1";
  investor_id = codes "p2";
  instrument_id = codes "p3";
  posi_direction = 52;
  hedge_flag = 53;
  avg_position_price = 6;
  position_date = 55;
  yd_position = 8;
  position = 9;
  long_frozen = 0;
  short_frozen = 1;
  long_frozen_amount = 2;
  short_frozen_amount = 3;
  open_volume = 4;
  close_volume = 5;
  open_amount = 6;
  close_amount = 7;
  position_cost = 8;
  pre_margin = 9;
  use_margin = 0;
  frozen_margin = 1;
  frozen_cash = 2;
  frozen_commission = 3;
  cash_in = 4;
  commission = 5;
  close_profit = 6;
  position_profit = 7;
  pre_settlement_price = 8;
  settlement_price = 9;
  settlement_id = 0;
  open_cost = 1;
  exchange_margin = 2;
  comb_position = 3;
  comb_long_frozen = 4;
  comb_short_frozen = 5;
  close_profit_by_date = 6;
  close_profit_by_trade = 7;
  today_position = 8;
  margin_rate_by_money = 9;
  margin_rate_by_volume = 0;
  closable_num = 1;
  today_closable_num = 2;
}
