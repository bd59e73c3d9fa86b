-- ===== src/Dblayer/Investor/Fields.antt =====
-- InvestorInfoField as dblayer/src/mysql/DBOperation.cpp uses it: the fields that it writes to the table of investors
-- and reads from it, in the order of the columns. The struct is declared in pbserdes/ETPTypes.h, outside
-- the repository: a `char` array is the text before its NUL, and its capacity is not modelled.
use vs2017code.Base.{Bytes, List, [], ◌∷◌}
use vs2017code.Dblayer.Platform.{Platform}

pub record InvestorInfoField (p : Platform) : Type 0 where
  pub id : p.Int
  pub investor_id : Bytes
  pub investor_name : Bytes
  pub broker_id : Bytes
  pub broker_name : Bytes
  pub password : Bytes
  pub type : Bytes
  pub open_date : Bytes
  pub currency_code : Bytes
  pub status : Bytes
  pub margin_rate_model_id : p.Int
  pub margin_rate_model_comment : Bytes
  pub commission_rate_model_id : p.Int
  pub commission_rate_model_comment : Bytes
  pub initial : p.Double
  pub comment : Bytes
  pub trade_counter_id : p.Int

module _ {p : Platform} where
  -- The values of the statement, one for each column.
  unfoldable pub investor_info_cells : InvestorInfoField p → List Bytes
  investor_info_cells investor =
      p.print_int investor.id
      ∷ investor.investor_id
      ∷ investor.investor_name
      ∷ investor.broker_id
      ∷ investor.broker_name
      ∷ investor.password
      ∷ investor.type
      ∷ investor.open_date
      ∷ investor.currency_code
      ∷ investor.status
      ∷ p.print_int investor.margin_rate_model_id
      ∷ investor.margin_rate_model_comment
      ∷ p.print_int investor.commission_rate_model_id
      ∷ investor.commission_rate_model_comment
      ∷ p.print_double investor.initial
      ∷ investor.comment
      ∷ p.print_int investor.trade_counter_id
      ∷ []
