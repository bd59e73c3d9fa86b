-- ===== src/Dblayer/TradeRisk/Laws.antt =====
-- A template that is stored is read back without its text.
use vs2017code.Base.{ℕ, ◌≡◌, Bytes, codes, true, List, [], ◌∷◌, map, Option, some, c_string, arith}
use vs2017code.Dblayer.Platform.{Platform, ConversionsRoundTrip, result_set, Session, ok}
use vs2017code.Dblayer.Tables.{trade_risk_tmpl_table}
use vs2017code.Dblayer.RecordSet.{cell_text, fetched}
use vs2017code.Dblayer.Operation.{ensure_connected}
use vs2017code.Dblayer.Operation.Reconnect.{ensure_connected_live}
use vs2017code.Dblayer.Statement.{select_where, equals, ◌and◌, of_investor}
use vs2017code.Dblayer.TradeRisk.Fields.{TradeRiskTmplField, trade_risk_tmpl_cells}
use vs2017code.Dblayer.TradeRisk.Reader.{read_trade_risk_tmpl}
use vs2017code.Dblayer.TradeRisk.Operations.{get_trade_risk_tmpl, overwrite_rows}

pub read_trade_risk_tmpl-trade_risk_tmpl_cells :
    {p : Platform} (laws : ConversionsRoundTrip p) (field template : TradeRiskTmplField p)
    → read_trade_risk_tmpl field (trade_risk_tmpl_cells template)
      ≡ some (record template { trade_risk_tmpl_txt = [] })
unfolding read_trade_risk_tmpl trade_risk_tmpl_cells
read_trade_risk_tmpl-trade_risk_tmpl_cells laws field template = simp (laws.to_int-print_int)

-- GetTradeRiskTmpl, when the check of the connection passes and the server answers its query with
-- the row that UpdTradeRiskTmpl writes for a template, returns true and the template with an empty
-- text.
pub get_trade_risk_tmpl_stored :
    {p : Platform} (laws : ConversionsRoundTrip p) (field template : TradeRiskTmplField p)
    (broker_id investor_id : Bytes) (client_type : p.Int) (s t : Session p)
    (fields : List (Bytes × ℕ)) (raw : List (Option Bytes)) (server : p.Server)
    → ensure_connected s ≡ (ok tt, t)
    → p.real_query t.server (
        c_string (
          select_where trade_risk_tmpl_table (
            of_investor broker_id investor_id
            and equals (codes "ClientType") (p.print_int client_type))))
      ≡ (result_set fields (raw ∷ []), server)
    → map cell_text raw ≡ trade_risk_tmpl_cells template
    → get_trade_risk_tmpl field broker_id investor_id client_type s
      ≡ (ok (true, record template { trade_risk_tmpl_txt = [] }), record t { server = server })
unfolding get_trade_risk_tmpl overwrite_rows fetched
get_trade_risk_tmpl_stored laws field template broker_id investor_id client_type s t fields raw
      server c q same =
    ground (
      arith,
      ensure_connected_live s,
      read_trade_risk_tmpl-trade_risk_tmpl_cells laws field template,
    )
