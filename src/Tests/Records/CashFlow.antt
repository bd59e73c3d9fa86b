-- ===== src/Tests/Records/CashFlow.antt =====
-- A record of the cash flow tables whose fields are all different, for the tests.
use vs2017code.Base.{codes}
use vs2017code.Dblayer.CashFlow.Fields.{CashFlowField}
use vs2017code.Tests.Server.{scripted}

abbrev pub some_cash_flow : CashFlowField scripted
some_cash_flow = record {
  cash_flow_id = 0;
  broker_id = codes "f1";
  investor_id = codes "f2";
  currency_code = codes "f3";
  type = codes "f4";
  amount = 5;
  date = codes "f6";
  time = codes "f7";
  operator_code = codes "f8";
  pre_capital = 9;
  capital = 0;
  comment = codes "f11";
  is_handled = 2;
}
