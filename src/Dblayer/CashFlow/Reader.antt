-- ===== src/Dblayer/CashFlow/Reader.antt =====
-- How the readers of the cash flow tables fill a CashFlowField from a row, column by column.
use vs2017code.Base.{Option, some}
use vs2017code.Dblayer.Platform.{Platform}
use vs2017code.Dblayer.RecordSet.{Record, cell}
use vs2017code.Base.Chain.{◌>>=◌}
use vs2017code.Dblayer.Statement.{first_char, poke_first}
use vs2017code.Dblayer.CashFlow.Fields.{CashFlowField}

module _ {p : Platform} where
  -- The assignments of one round of the loop to `field`, which holds what the last round left;
  -- `none` is a column that the row does not have.
  unfoldable pub read_cash_flow : CashFlowField p → Record → Option (CashFlowField p)
  unfolding cell first_char poke_first
  read_cash_flow field row = do
    cash_flow_id ← cell row 0
    broker_id ← cell row 1
    investor_id ← cell row 2
    currency_code ← cell row 3
    type ← cell row 4
    amount ← cell row 5
    date ← cell row 6
    time ← cell row 7
    operator_code ← cell row 8
    pre_capital ← cell row 9
    capital ← cell row 10
    comment ← cell row 11
    is_handled ← cell row 12
    some (record {
      cash_flow_id = p.to_int cash_flow_id;
      broker_id = broker_id;
      investor_id = investor_id;
      currency_code = currency_code;
      type = type;
      amount = p.to_double amount;
      date = date;
      time = time;
      operator_code = operator_code;
      pre_capital = p.to_double pre_capital;
      capital = p.to_double capital;
      comment = comment;
      is_handled = p.to_int is_handled;
    })
