-- ===== src/Dblayer/Trade/Operations.antt =====
-- The operations on the trade tables. The readers take, besides the arguments of the source, what the
-- uninitialised local `TradeField field` holds.
use vs2017code.Base.{Bytes, codes, Bool, List, [], ◌∷◌, ◌++◌, ℤ}
use vs2017code.Dblayer.Platform.{Platform, M}
use vs2017code.Dblayer.Tables.{trade_table, his_trade_table}
use vs2017code.Dblayer.Operation.{run_update}
use vs2017code.Dblayer.Statement.{
  replace_into, select_where, select_all, select_expression, delete_where, truncate_table, equals,
  ◌and◌, of_investor, query_rows, query_max, query_investors,
}
use vs2017code.Dblayer.Trade.Fields.{TradeField, trade_cells}
use vs2017code.Dblayer.Trade.Reader.{read_trade}

-- The end of the statement of the reader between two dates, either of which may be empty.
unfoldable pub date_range : Bytes → Bytes → Bytes
date_range [] [] = []
date_range [] (e ∷ end) = codes "' AND TradingDay <= " ++ (e ∷ end)
date_range (b ∷ begin) [] = codes "' AND TradingDay >= " ++ (b ∷ begin)
date_range (b ∷ begin) (e ∷ end) =
    codes "' AND TradingDay BETWEEN " ++ ((b ∷ begin) ++ (codes " AND " ++ (e ∷ end)))

unfoldable pub his_trade_range : Bytes → Bytes → Bytes → Bytes → Bytes
unfolding date_range
his_trade_range broker_id investor_id begin_date end_date =
    codes "SELECT * FROM `"
    ++ (his_trade_table
        ++ (codes "` WHERE BrokerID = '"
            ++ (broker_id
                ++ (codes "' AND InvestorID = "
                    ++ (investor_id ++ (date_range begin_date end_date ++ codes ";"))))))

module _ {p : Platform} where
  unfoldable pub upd_trade : TradeField p → M p Bool
  upd_trade trade = run_update (replace_into trade_table (trade_cells trade))

  unfoldable pub clean_trade : M p Bool
  clean_trade = run_update (truncate_table trade_table)

  unfoldable pub get_trade_of_investor :
      TradeField p → List (TradeField p) → Bytes → Bytes → M p (Bool × List (TradeField p))
  get_trade_of_investor field trades broker_id investor_id =
      query_rows read_trade field (select_where trade_table (of_investor broker_id investor_id))
        trades

  unfoldable pub get_trade :
      TradeField p → List (TradeField p) → Bytes → Bytes → Bytes → M p (Bool × List (TradeField p))
  get_trade field trades broker_id investor_id trading_day =
      query_rows read_trade field
        (select_where trade_table
          (of_investor broker_id investor_id and equals (codes "TradingDay") trading_day))
        trades

  unfoldable pub get_all_trade_of_day :
      TradeField p → List (TradeField p) → Bytes → M p (Bool × List (TradeField p))
  get_all_trade_of_day field trades trading_day =
      query_rows read_trade field
        (select_where trade_table (equals (codes "TradingDay") trading_day)) trades

  unfoldable pub get_all_trade :
      TradeField p → List (TradeField p) → M p (Bool × List (TradeField p))
  get_all_trade field trades = query_rows read_trade field (select_all trade_table) trades

  unfoldable pub get_max_trade_id : M p ℤ
  get_max_trade_id = query_max (select_expression (codes "MAX(tradeid)") trade_table)

  unfoldable pub get_investors_of_trade : List Bytes → M p (Bool × List Bytes)
  get_investors_of_trade =
      query_investors (select_expression (codes "DISTINCT investorid") trade_table)

  unfoldable pub del_investor_trade : Bytes → Bytes → M p Bool
  del_investor_trade broker_id investor_id =
      run_update (delete_where trade_table (of_investor broker_id investor_id))

  -- The history tables have one more column, which is written as 0.
  unfoldable pub upd_his_trade : TradeField p → M p Bool
  upd_his_trade trade =
      run_update (replace_into his_trade_table (trade_cells trade ++ codes "0" ∷ []))

  unfoldable pub get_his_trade :
      TradeField p → List (TradeField p) → Bytes → Bytes → Bytes → M p (Bool × List (TradeField p))
  get_his_trade field trades broker_id investor_id trading_day =
      query_rows read_trade field
        (select_where his_trade_table
          (of_investor broker_id investor_id and equals (codes "TradingDay") trading_day))
        trades

  unfoldable pub get_his_trade_between :
      TradeField p
      → List (TradeField p)
      → Bytes
      → Bytes
      → Bytes
      → Bytes
      → M p (Bool × List (TradeField p))
  get_his_trade_between field trades broker_id investor_id begin_date end_date =
      query_rows read_trade field (his_trade_range broker_id investor_id begin_date end_date) trades

  unfoldable pub get_all_his_trade :
      TradeField p → List (TradeField p) → Bytes → M p (Bool × List (TradeField p))
  get_all_his_trade field trades trading_day =
      query_rows read_trade field
        (select_where his_trade_table (equals (codes "TradingDay") trading_day)) trades

  unfoldable pub del_investor_his_trade : Bytes → Bytes → M p Bool
  del_investor_his_trade broker_id investor_id =
      run_update (delete_where his_trade_table (of_investor broker_id investor_id))
