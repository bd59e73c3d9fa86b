-- ===== src/Dblayer/Investor/Reader.antt =====
-- How the readers of the table of investors fill a InvestorInfoField from a row, column by column.
use vs2017code.Base.{ℤ, Bytes, Option, some}
use vs2017code.Dblayer.Platform.{Platform}
use vs2017code.Dblayer.RecordSet.{Record, cell}
use vs2017code.Base.Chain.{◌>>=◌}
use vs2017code.Dblayer.Statement.{first_char, poke_first}
use vs2017code.Dblayer.Investor.Fields.{InvestorInfoField}

-- The investors in the range of a server: the range, then the rows.
unfoldable pub read_range : Record → Option (Bytes × Bytes)
unfolding cell
read_range row = do from ← cell row 1; to ← cell row 2; some (from, to)

-- The two numbers of a server's range.
unfoldable pub read_long_range : (p : Platform) → ℤ × ℤ → Record → Option (ℤ × ℤ)
unfolding cell
read_long_range p range row = do
  from ← cell row 1
  to ← cell row 2
  some (p.to_long_long from, p.to_long_long to)

module _ {p : Platform} where
  -- The assignments of one round of the loop to `field`, which holds what the last round left;
  -- `none` is a column that the row does not have.
  unfoldable pub read_investor_info : InvestorInfoField p → Record → Option (InvestorInfoField p)
  unfolding cell first_char poke_first
  read_investor_info field row = do
    id ← cell row 0
    investor_id ← cell row 1
    investor_name ← cell row 2
    broker_id ← cell row 3
    broker_name ← cell row 4
    password ← cell row 5
    type ← cell row 6
    open_date ← cell row 7
    currency_code ← cell row 8
    status ← cell row 9
    margin_rate_model_id ← cell row 10
    margin_rate_model_comment ← cell row 11
    commission_rate_model_id ← cell row 12
    commission_rate_model_comment ← cell row 13
    initial ← cell row 14
    comment ← cell row 15
    trade_counter_id ← cell row 16
    some (record {
      id = p.to_int id;
      investor_id = investor_id;
      investor_name = investor_name;
      broker_id = broker_id;
      broker_name = broker_name;
      password = password;
      type = type;
      open_date = open_date;
      currency_code = currency_code;
      status = status;
      margin_rate_model_id = p.to_int margin_rate_model_id;
      margin_rate_model_comment = margin_rate_model_comment;
      commission_rate_model_id = p.to_int commission_rate_model_id;
      commission_rate_model_comment = commission_rate_model_comment;
      initial = p.to_double initial;
      comment = comment;
      trade_counter_id = p.to_int trade_counter_id;
    })

  -- The same in the reader of a server's investors, whose last column is that of the first row.
  unfoldable pub read_investor_of_server :
      Record → InvestorInfoField p → Record → Option (InvestorInfoField p)
  unfolding cell first_char poke_first
  read_investor_of_server first field row = do
    id ← cell row 0
    investor_id ← cell row 1
    investor_name ← cell row 2
    broker_id ← cell row 3
    broker_name ← cell row 4
    password ← cell row 5
    type ← cell row 6
    open_date ← cell row 7
    currency_code ← cell row 8
    status ← cell row 9
    margin_rate_model_id ← cell row 10
    margin_rate_model_comment ← cell row 11
    commission_rate_model_id ← cell row 12
    commission_rate_model_comment ← cell row 13
    initial ← cell row 14
    comment ← cell row 15
    trade_counter_id ← cell first 16
    some (record {
      id = p.to_int id;
      investor_id = investor_id;
      investor_name = investor_name;
      broker_id = broker_id;
      broker_name = broker_name;
      password = password;
      type = type;
      open_date = open_date;
      currency_code = currency_code;
      status = status;
      margin_rate_model_id = p.to_int margin_rate_model_id;
      margin_rate_model_comment = margin_rate_model_comment;
      commission_rate_model_id = p.to_int commission_rate_model_id;
      commission_rate_model_comment = commission_rate_model_comment;
      initial = p.to_double initial;
      comment = comment;
      trade_counter_id = p.to_int trade_counter_id;
    })
