-- ===== src/Tests/Tables.antt =====
-- The theorems on further tables at concrete rows.
use vs2017code.Base.{
  ◌≡◌, refl, arith, codes, true, false, [], ◌∷◌, map, some, c_string, Bytes, List, Option,
}
use vs2017code.Dblayer.Platform.{Reply, affected, result_set, Session, ok}
use vs2017code.Dblayer.Database.{ping, affected_rows}
use vs2017code.Dblayer.RecordSet.{cell_text, cell}
use vs2017code.Dblayer.Operation.{ensure_connected}
use vs2017code.Dblayer.Investor.Fields.{investor_info_cells}
use vs2017code.Dblayer.Investor.Operations.{query_investors_of_range}
use vs2017code.Dblayer.Investor.Laws.{with_counter_of, query_investors_of_range_first}
use vs2017code.Dblayer.SettlementSheet.{
  SheetText, SettlementSheetField, settlement_sheet_cells, sheet_text,
}
use vs2017code.Dblayer.TradeRisk.Fields.{trade_risk_tmpl_cells}
use vs2017code.Dblayer.CloudOrder.Operations.{upd_cloud_order}
use vs2017code.Dblayer.CloudOrder.Laws.{upd_cloud_order_new}
use vs2017code.Dblayer.MarginModel.Reader.{read_margin_rate_model}
use vs2017code.Dblayer.MarginRate.Fields.{margin_rate_cells}
use vs2017code.Dblayer.MarginRate.Operations.{get_margin_rate_info}
use vs2017code.Dblayer.MarginRate.Laws.{with_factor, get_margin_rate_info_scaled}
use vs2017code.Tests.Server.{scripted, scripted_laws, connected_to}
use vs2017code.Tests.Records.Tables.{
  first_investor, second_investor, new_cloud_order, some_margin_rate, some_margin_model,
  some_template,
}

abbrev raw : List Bytes → List (Option Bytes)
raw = map some

abbrev none_left : Session scripted
none_left = connected_to []

abbrev investor_raws : List (List (Option Bytes))
unfolding investor_info_cells
investor_raws =
    raw (investor_info_cells first_investor) ∷ raw (investor_info_cells second_investor) ∷ []

abbrev investors_found : Session scripted
investors_found = connected_to (result_set [] investor_raws ∷ [])

query_investors_of_range_first_example :
    query_investors_of_range first_investor [] (codes "1", codes "9") investors_found ≡ (
      ok (true, map (with_counter_of first_investor) (first_investor ∷ second_investor ∷ [])),
      none_left,
    )
unfolding ensure_connected ping investor_info_cells cell_text c_string
query_investors_of_range_first_example =
    query_investors_of_range_first scripted_laws first_investor first_investor []
      (second_investor ∷ []) (codes "1") (codes "9") investors_found investors_found []
      investor_raws none_left.server refl refl (omega arith) refl

abbrev sheet_part : SheetText
sheet_part = record {
  header_string = codes "h";
  date_string = codes "d";
  equity_string = codes "e";
  equity_adjust_string = codes "a";
  trade_string = codes "t";
  position_string = codes "p";
  position_adjust_string = codes "j";
  tail_string = codes "z";
}

abbrev some_sheet : SettlementSheetField scripted
some_sheet = record {
  broker_id = codes "9999";
  investor_id = codes "100";
  settlement_date = codes "20170601";
  settlement_id = 1;
  chinese = sheet_part;
  english = sheet_part;
}

abbrev sheet_raw : List (Option Bytes)
unfolding settlement_sheet_cells sheet_text
sheet_raw = raw (settlement_sheet_cells some_sheet)

abbrev sheet_found : Session scripted
sheet_found = connected_to (result_set [] (sheet_raw ∷ []) ∷ [])

abbrev template_raw : List (Option Bytes)
unfolding trade_risk_tmpl_cells
template_raw = raw (trade_risk_tmpl_cells some_template)

abbrev template_found : Session scripted
template_found = connected_to (result_set [] (template_raw ∷ []) ∷ [])

abbrev number_reply : Reply
number_reply = result_set [] ((some (codes "5") ∷ []) ∷ [])

abbrev numbering : Session scripted
numbering = connected_to (affected 1 ∷ number_reply ∷ [])

upd_cloud_order_new_example :
    upd_cloud_order new_cloud_order numbering
    ≡ (ok (true, record new_cloud_order { cloud_order_id = 5 }), none_left)
unfolding ensure_connected ping affected_rows c_string
upd_cloud_order_new_example =
    upd_cloud_order_new new_cloud_order numbering numbering 1 [] (codes "5") []
      (connected_to (number_reply ∷ [])).server none_left.server refl refl refl refl refl

abbrev rate_raw : List (Option Bytes)
unfolding margin_rate_cells
rate_raw = raw (margin_rate_cells some_margin_rate)

abbrev model_raw : List (Option Bytes)
model_raw =
    raw (codes "0" ∷ codes "f1" ∷ codes "f2" ∷ codes "f3" ∷ codes "f4" ∷ codes "5" ∷ codes "2" ∷ [])

abbrev model_reply : Reply
model_reply = result_set [] (model_raw ∷ [])

abbrev rate_found : Session scripted
rate_found = connected_to (result_set [] (rate_raw ∷ []) ∷ model_reply ∷ [])

get_margin_rate_info_scaled_example :
    (scripted.greater 2 1 ≡ true
      → get_margin_rate_info some_margin_rate some_margin_model 3 (codes "CF") rate_found ≡ (
        ok (true, with_factor 2 (record some_margin_rate { margin_rate_model_id = 3 })),
        none_left,
      ))
    × (scripted.greater 2 1 ≡ false
        → get_margin_rate_info some_margin_rate some_margin_model 3 (codes "CF") rate_found
          ≡ (ok (true, record some_margin_rate { margin_rate_model_id = 3 }), none_left))
unfolding ensure_connected ping margin_rate_cells read_margin_rate_model cell cell_text c_string
get_margin_rate_info_scaled_example =
    get_margin_rate_info_scaled scripted_laws some_margin_rate some_margin_rate some_margin_model
      some_margin_model 3 (codes "CF") rate_found rate_found (connected_to (model_reply ∷ [])) [] []
      rate_raw model_raw [] [] (connected_to (model_reply ∷ [])).server none_left.server refl refl
      (omega arith) refl refl refl (omega arith) refl
