-- ===== src/Dblayer/CashFlow/Fields.antt =====
-- CashFlowField as dblayer/src/mysql/DBOperation.cpp uses it: the fields that it writes to the cash flow tables
-- and reads from it, in the order of the columns. The struct is declared in pbserdes/ETPTypes.h, outside
-- the repository: a `char` array is the text before its NUL, and its capacity is not modelled.
use vs2017code.Base.{Bytes, List, [], ◌∷◌}
use vs2017code.Dblayer.Platform.{Platform}

pub record CashFlowField (p : Platform) : Type 0 where
  pub cash_flow_id : p.Int
  pub broker_id : Bytes
  pub investor_id : Bytes
  pub currency_code : Bytes
  pub type : Bytes
  pub amount : p.Double
  pub date : Bytes
  pub time : Bytes
  pub operator_code : Bytes
  pub pre_capital : p.Double
  pub capital : p.Double
  pub comment : Bytes
  pub is_handled : p.Int

module _ {p : Platform} where
  -- The values of the statement, one for each column.
  unfoldable pub cash_flow_cells : CashFlowField p → List Bytes
  cash_flow_cells cash_flow =
      p.print_int cash_flow.cash_flow_id
      ∷ cash_flow.broker_id
      ∷ cash_flow.investor_id
      ∷ cash_flow.currency_code
      ∷ cash_flow.type
      ∷ p.print_double cash_flow.amount
      ∷ cash_flow.date
      ∷ cash_flow.time
      ∷ cash_flow.operator_code
      ∷ p.print_double cash_flow.pre_capital
      ∷ p.print_double cash_flow.capital
      ∷ cash_flow.comment
      ∷ p.print_int cash_flow.is_handled
      ∷ []
