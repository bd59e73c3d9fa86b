-- ===== src/Dblayer/TradeRisk/Reader.antt =====
-- How the reader of the table of templates fills a TradeRiskTmplField from a row.
use vs2017code.Base.{Option, some}
use vs2017code.Base.Chain.{◌>>=◌}
use vs2017code.Dblayer.Platform.{Platform}
use vs2017code.Dblayer.RecordSet.{Record, cell}
use vs2017code.Dblayer.TradeRisk.Fields.{TradeRiskTmplField}

module _ {p : Platform} where
  unfoldable pub read_trade_risk_tmpl :
      TradeRiskTmplField p → Record → Option (TradeRiskTmplField p)
  unfolding cell
  read_trade_risk_tmpl field row = do
    broker_id ← cell row 0
    investor_id ← cell row 1
    client_type ← cell row 2
    time ← cell row 3
    trade_risk_tmpl_txt ← cell row 4
    some (record {
      broker_id = broker_id;
      investor_id = investor_id;
      client_type = p.to_int client_type;
      time = time;
      trade_risk_tmpl_txt = trade_risk_tmpl_txt;
    })
