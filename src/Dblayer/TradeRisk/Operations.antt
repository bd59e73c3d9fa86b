-- ===== src/Dblayer/TradeRisk/Operations.antt =====
-- The operations on the table of templates; the update by a prepared statement is left out.
use vs2017code.Base.{zero, suc, Bytes, codes, Bool, true, false, List, [], ◌∷◌, take, pos, negsuc}
use vs2017code.Dblayer.Platform.{Platform, M, return, at_index, catch_all, ◌>>=◌, ◌>>◌}
use vs2017code.Dblayer.RecordSet.{Record, execute_sql, new_record_set}
use vs2017code.Dblayer.Tables.{trade_risk_tmpl_table}
use vs2017code.Dblayer.Operation.{run_update, ensure_connected}
use vs2017code.Dblayer.Statement.{
  replace_into, select_where, delete_where, equals, ◌and◌, of_investor,
}
use vs2017code.Dblayer.TradeRisk.Fields.{TradeRiskTmplField, trade_risk_tmpl_cells}
use vs2017code.Dblayer.TradeRisk.Reader.{read_trade_risk_tmpl}

module _ {p : Platform} where
  unfoldable pub upd_trade_risk_tmpl : TradeRiskTmplField p → M p Bool
  upd_trade_risk_tmpl field =
      run_update (replace_into trade_risk_tmpl_table (trade_risk_tmpl_cells field))

  -- The loop over the rows, each of which overwrites the argument.
  unfoldable pub overwrite_rows :
      TradeRiskTmplField p → List Record → M p (Bool × TradeRiskTmplField p)
  overwrite_rows field [] = return (true, field)
  overwrite_rows field (row ∷ rows) = do
    field' ← at_index (read_trade_risk_tmpl field row)
    overwrite_rows field' rows

  unfoldable pub get_trade_risk_tmpl :
      TradeRiskTmplField p → Bytes → Bytes → p.Int → M p (Bool × TradeRiskTmplField p)
  unfolding execute_sql overwrite_rows
  get_trade_risk_tmpl field broker_id investor_id client_type =
      catch_all (false, field)
        (do
          ensure_connected
          answer ← execute_sql new_record_set (
              select_where trade_risk_tmpl_table (
                of_investor broker_id investor_id
                and equals (codes "ClientType") (p.print_int client_type)))
          elim answer.0 [
            | negsuc n ↦ return (false, field)
            | pos count ↦ elim count [
              | zero ↦ return (false, field)
              | suc more ↦ overwrite_rows field (take (suc more) answer.1.rows)
            ]
          ])

  unfoldable pub del_investor_trade_risk_tmpl : Bytes → Bytes → M p Bool
  del_investor_trade_risk_tmpl broker_id investor_id =
      run_update (delete_where trade_risk_tmpl_table (of_investor broker_id investor_id))
