-- ===== src/Dblayer/Account/Reader.antt =====
-- How the readers of the account tables fill a TradingAccountField from a row, column by column.
use vs2017code.Base.{Option, some}
use vs2017code.Dblayer.Platform.{Platform}
use vs2017code.Dblayer.RecordSet.{Record, cell}
use vs2017code.Base.Chain.{◌>>=◌}
use vs2017code.Dblayer.Statement.{first_char, poke_first}
use vs2017code.Dblayer.Account.Fields.{TradingAccountField}

module _ {p : Platform} where
  -- The assignments of one round of the loop to `field`, which holds what the last round left;
  -- `none` is a column that the row does not have.
  unfoldable pub read_trading_account :
      TradingAccountField p → Record → Option (TradingAccountField p)
  unfolding cell first_char poke_first
  read_trading_account field row = do
    broker_id ← cell row 0
    account_id ← cell row 1
    pre_mortgage ← cell row 2
    pre_credit ← cell row 3
    pre_deposit ← cell row 4
    pre_balance ← cell row 5
    pre_margin ← cell row 6
    interest_base ← cell row 7
    interest ← cell row 8
    deposit ← cell row 9
    withdraw ← cell row 10
    frozen_margin ← cell row 11
    frozen_cash ← cell row 12
    frozen_commission ← cell row 13
    curr_margin ← cell row 14
    cash_in ← cell row 15
    commission ← cell row 16
    close_profit ← cell row 17
    position_profit ← cell row 18
    balance ← cell row 19
    available ← cell row 20
    withdraw_quota ← cell row 21
    reserve ← cell row 22
    trading_day ← cell row 23
    settlement_id ← cell row 24
    credit ← cell row 25
    mortgage ← cell row 26
    exchange_margin ← cell row 27
    delivery_margin ← cell row 28
    exchange_delivery_margin ← cell row 29
    some (record {
      broker_id = broker_id;
      account_id = account_id;
      pre_mortgage = p.to_double pre_mortgage;
      pre_credit = p.to_double pre_credit;
      pre_deposit = p.to_double pre_deposit;
      pre_balance = p.to_double pre_balance;
      pre_margin = p.to_double pre_margin;
      interest_base = p.to_double interest_base;
      interest = p.to_double interest;
      deposit = p.to_double deposit;
      withdraw = p.to_double withdraw;
      frozen_margin = p.to_double frozen_margin;
      frozen_cash = p.to_double frozen_cash;
      frozen_commission = p.to_double frozen_commission;
      curr_margin = p.to_double curr_margin;
      cash_in = p.to_double cash_in;
      commission = p.to_double commission;
      close_profit = p.to_double close_profit;
      position_profit = p.to_double position_profit;
      balance = p.to_double balance;
      available = p.to_double available;
      withdraw_quota = p.to_double withdraw_quota;
      reserve = p.to_double reserve;
      trading_day = trading_day;
      settlement_id = p.to_int settlement_id;
      credit = p.to_double credit;
      mortgage = p.to_double mortgage;
      exchange_margin = p.to_double exchange_margin;
      delivery_margin = p.to_double delivery_margin;
      exchange_delivery_margin = p.to_double exchange_delivery_margin;
    })
