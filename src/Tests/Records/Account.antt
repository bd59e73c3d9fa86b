-- ===== src/Tests/Records/Account.antt =====
-- A record of the account tables whose fields are all different, for the tests.
use vs2017code.Base.{codes}
use vs2017code.Dblayer.Account.Fields.{TradingAccountField}
use vs2017code.Tests.Server.{scripted}

abbrev pub some_account : TradingAccountField scripted
some_account = record {
  broker_id = codes "a0";
  account_id = codes "a1";
  pre_mortgage = 2;
  pre_credit = 3;
  pre_deposit = 4;
  pre_balance = 5;
  pre_margin = 6;
  interest_base = 7;
  interest = 8;
  deposit = 9;
  withdraw = 0;
  frozen_margin = 1;
  frozen_cash = 2;
  frozen_commission = 3;
  curr_margin = 4;
  cash_in = 5;
  commission = 6;
  close_profit = 7;
  position_profit = 8;
  balance = 9;
  available = 0;
  withdraw_quota = 1;
  reserve = 2;
  trading_day = codes "a23";
  settlement_id = 4;
  credit = 5;
  mortgage = 6;
  exchange_margin = 7;
  delivery_margin = 8;
  exchange_delivery_margin = 9;
}
