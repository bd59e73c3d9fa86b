-- ===== src/Dblayer/TradeRisk/Fields.antt =====
-- TradeRiskTmplField as dblayer/src/mysql/DBOperation.cpp uses it. The struct is declared in
-- pbserdes/ETPTypes.h, outside the repository.
use vs2017code.Base.{Bytes, List, [], ◌∷◌}
use vs2017code.Dblayer.Platform.{Platform}

pub record TradeRiskTmplField (p : Platform) : Type 0 where
  pub broker_id : Bytes
  pub investor_id : Bytes
  pub client_type : p.Int
  pub time : Bytes
  pub trade_risk_tmpl_txt : Bytes

module _ {p : Platform} where
  -- The values of the statement: the last one is empty.
  unfoldable pub trade_risk_tmpl_cells : TradeRiskTmplField p → List Bytes
  trade_risk_tmpl_cells field =
      field.broker_id ∷ field.investor_id ∷ p.print_int field.client_type ∷ field.time ∷ [] ∷ []
