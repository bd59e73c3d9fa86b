-- ===== src/Dblayer/Account/Fields.antt =====
-- TradingAccountField as dblayer/src/mysql/DBOperation.cpp uses it: the fields that it writes to the account tables
-- and reads from it, in the order of the columns. The struct is declared in pbserdes/ETPTypes.h, outside
-- the repository: a `char` array is the text before its NUL, and its capacity is not modelled.
use vs2017code.Base.{Bytes, List, [], ◌∷◌}
use vs2017code.Dblayer.Platform.{Platform}

pub record TradingAccountField (p : Platform) : Type 0 where
  pub broker_id : Bytes
  pub account_id : Bytes
  pub pre_mortgage : p.Double
  pub pre_credit : p.Double
  pub pre_deposit : p.Double
  pub pre_balance : p.Double
  pub pre_margin : p.Double
  pub interest_base : p.Double
  pub interest : p.Double
  pub deposit : p.Double
  pub withdraw : p.Double
  pub frozen_margin : p.Double
  pub frozen_cash : p.Double
  pub frozen_commission : p.Double
  pub curr_margin : p.Double
  pub cash_in : p.Double
  pub commission : p.Double
  pub close_profit : p.Double
  pub position_profit : p.Double
  pub balance : p.Double
  pub available : p.Double
  pub withdraw_quota : p.Double
  pub reserve : p.Double
  pub trading_day : Bytes
  pub settlement_id : p.Int
  pub credit : p.Double
  pub mortgage : p.Double
  pub exchange_margin : p.Double
  pub delivery_margin : p.Double
  pub exchange_delivery_margin : p.Double

module _ {p : Platform} where
  -- The values of the statement, one for each column.
  unfoldable pub trading_account_cells : TradingAccountField p → List Bytes
  trading_account_cells account =
      account.broker_id
      ∷ account.account_id
      ∷ p.print_double account.pre_mortgage
      ∷ p.print_double account.pre_credit
      ∷ p.print_double account.pre_deposit
      ∷ p.print_double account.pre_balance
      ∷ p.print_double account.pre_margin
      ∷ p.print_double account.interest_base
      ∷ p.print_double account.interest
      ∷ p.print_double account.deposit
      ∷ p.print_double account.withdraw
      ∷ p.print_double account.frozen_margin
      ∷ p.print_double account.frozen_cash
      ∷ p.print_double account.frozen_commission
      ∷ p.print_double account.curr_margin
      ∷ p.print_double account.cash_in
      ∷ p.print_double account.commission
      ∷ p.print_double account.close_profit
      ∷ p.print_double account.position_profit
      ∷ p.print_double account.balance
      ∷ p.print_double account.available
      ∷ p.print_double account.withdraw_quota
      ∷ p.print_double account.reserve
      ∷ account.trading_day
      ∷ p.print_int account.settlement_id
      ∷ p.print_double account.credit
      ∷ p.print_double account.mortgage
      ∷ p.print_double account.exchange_margin
      ∷ p.print_double account.delivery_margin
      ∷ p.print_double account.exchange_delivery_margin
      ∷ []
