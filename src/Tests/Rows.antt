-- ===== src/Tests/Rows.antt =====
-- The theorems on the tables at concrete rows.
use vs2017code.Base.{
  ◌≡◌, refl, arith, codes, true, [], ◌∷◌, map, some, c_string, Bytes, List, Option, pos,
}
use vs2017code.Dblayer.Platform.{affected, result_set, Session, ok}
use vs2017code.Dblayer.Database.{ping}
use vs2017code.Dblayer.RecordSet.{cell_text}
use vs2017code.Dblayer.Operation.{ensure_connected}
use vs2017code.Dblayer.Order.Fields.{order_cells}
use vs2017code.Dblayer.Order.Operations.{upd_order, get_all_order}
use vs2017code.Dblayer.Order.Laws.{as_read, get_all_order-upd_order}
use vs2017code.Dblayer.Trade.Fields.{trade_cells}
use vs2017code.Dblayer.Trade.Laws.{his_row}
use vs2017code.Dblayer.Account.Fields.{trading_account_cells}
use vs2017code.Dblayer.Account.Operations.{get_trading_account}
use vs2017code.Dblayer.Account.Laws.{get_trading_account_stored}
use vs2017code.Dblayer.Position.Fields.{position_cells}
use vs2017code.Dblayer.Position.Operations.{get_positions}
use vs2017code.Dblayer.Position.Laws.{get_positions_stored}
use vs2017code.Dblayer.CashFlow.Fields.{cash_flow_cells}
use vs2017code.Tests.Records.CashFlow.{some_cash_flow}
use vs2017code.Tests.Server.{scripted, scripted_laws, connected_to}
use vs2017code.Tests.Records.Order.{some_order}
use vs2017code.Tests.Records.Trade.{some_trade}
use vs2017code.Tests.Records.Account.{some_account}
use vs2017code.Tests.Records.Position.{some_position}

abbrev broker : Bytes
broker = codes "9999"

abbrev investor : Bytes
investor = codes "100"

abbrev day : Bytes
day = codes "20170601"

-- The reply of a server to a query that finds the row of one order, and of one trade.
abbrev raw : List Bytes → List (Option Bytes)
raw = map some

abbrev order_raw : List (List (Option Bytes))
unfolding order_cells
order_raw = raw (order_cells some_order) ∷ []

abbrev trade_raw : List (List (Option Bytes))
unfolding trade_cells
trade_raw = raw (his_row some_trade) ∷ []

abbrev account_raw : List (Option Bytes)
unfolding trading_account_cells
account_raw = raw (trading_account_cells some_account)

abbrev position_raw : List (List (Option Bytes))
unfolding position_cells
position_raw = raw (position_cells some_position) ∷ []

abbrev answer : List (List (Option Bytes)) → Session scripted
answer rows = connected_to (result_set [] rows ∷ [])

get_all_order-upd_order_example :
    ((upd_order some_order (connected_to (affected 2 ∷ result_set [] order_raw ∷ []))).0 ≡ ok true)
    × (get_all_order some_order []
          (upd_order some_order (connected_to (affected 2 ∷ result_set [] order_raw ∷ []))).1
        ≡ (ok (true, as_read some_order some_order ∷ []), connected_to []))
unfolding ensure_connected ping order_cells cell_text c_string
get_all_order-upd_order_example =
    get_all_order-upd_order scripted_laws some_order some_order []
      (connected_to (affected 2 ∷ result_set [] order_raw ∷ []))
      (connected_to (affected 2 ∷ result_set [] order_raw ∷ []))
      (connected_to (result_set [] order_raw ∷ [])) [] order_raw 2
      (connected_to (result_set [] order_raw ∷ [])).server (connected_to []).server refl refl
      (omega arith) refl refl (omega arith) refl

get_positions_stored_example :
    get_positions some_position [] broker investor (answer position_raw)
    ≡ (ok (true, some_position ∷ []), connected_to [])
unfolding ensure_connected ping position_cells cell_text c_string
get_positions_stored_example =
    get_positions_stored scripted_laws some_position [] (some_position ∷ []) broker investor
      (answer position_raw) (answer position_raw) [] position_raw (connected_to []).server refl refl
      (omega arith) refl

get_trading_account_stored_example :
    get_trading_account some_account broker investor (answer (account_raw ∷ []))
    ≡ (ok (pos 1, some_account), connected_to [])
unfolding ensure_connected ping trading_account_cells cell_text c_string
get_trading_account_stored_example =
    get_trading_account_stored some_account broker investor scripted_laws some_account
      (answer (account_raw ∷ [])) (answer (account_raw ∷ [])) (connected_to []).server []
      account_raw [] refl refl (omega arith) refl

abbrev cash_flow_raw : List (List (Option Bytes))
unfolding cash_flow_cells
cash_flow_raw = raw (cash_flow_cells some_cash_flow) ∷ []
