-- ===== src/Dblayer/Account/Operations.antt =====
-- The operations on the trading accounts and on the settled cash of the investors.
use vs2017code.Base.{Bytes, codes, Bool, false, ℤ, pos}
use vs2017code.Dblayer.Platform.{Platform, M, catch_all}
use vs2017code.Dblayer.Tables.{trading_account_table, investor_settlement_cash_table}
use vs2017code.Dblayer.Database.{minus_one}
use vs2017code.Dblayer.Operation.{run_update}
use vs2017code.Dblayer.Statement.{
  replace_into, select_where, delete_where, equals, ◌and◌, of_investor,
}
use vs2017code.Dblayer.Single.{query_row}
use vs2017code.Dblayer.Account.Fields.{TradingAccountField, trading_account_cells}
use vs2017code.Dblayer.Account.Reader.{read_trading_account}

module _ {p : Platform} where
  unfoldable pub upd_trading_account : TradingAccountField p → M p Bool
  upd_trading_account account =
      catch_all false
        (run_update (replace_into trading_account_table (trading_account_cells account)))

  unfoldable pub get_trading_account :
      TradingAccountField p → Bytes → Bytes → M p (ℤ × TradingAccountField p)
  get_trading_account field broker_id investor_id =
      query_row read_trading_account field (pos 0)
        (select_where trading_account_table (of_investor broker_id investor_id))

  unfoldable pub del_investor_trading_account : Bytes → Bytes → M p Bool
  del_investor_trading_account broker_id investor_id =
      run_update (delete_where trading_account_table (of_investor broker_id investor_id))

  unfoldable pub upd_settlement_cash : TradingAccountField p → M p Bool
  upd_settlement_cash account =
      run_update (replace_into investor_settlement_cash_table (trading_account_cells account))

  unfoldable pub get_settlement_cash :
      TradingAccountField p → Bytes → Bytes → Bytes → M p (ℤ × TradingAccountField p)
  get_settlement_cash field broker_id investor_id trading_day =
      query_row read_trading_account field minus_one (
        select_where investor_settlement_cash_table
          (of_investor broker_id investor_id and equals (codes "TradingDay") trading_day))

  unfoldable pub del_investor_settlement_cash : Bytes → Bytes → M p Bool
  del_investor_settlement_cash broker_id investor_id =
      run_update (delete_where investor_settlement_cash_table (of_investor broker_id investor_id))
