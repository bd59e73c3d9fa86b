-- ===== src/Dblayer/Exchange/Reader.antt =====
-- How the readers of the table of exchanges fill a ExchangeInfoField from a row, column by column.
use vs2017code.Base.{Option, some}
use vs2017code.Dblayer.Platform.{Platform}
use vs2017code.Dblayer.RecordSet.{Record, cell}
use vs2017code.Base.Chain.{◌>>=◌}
use vs2017code.Dblayer.Statement.{first_char, poke_first}
use vs2017code.Dblayer.Exchange.Fields.{ExchangeInfoField}

module _ {p : Platform} where
  -- The assignments of one round of the loop to `field`, which holds what the last round left;
  -- `none` is a column that the row does not have.
  unfoldable pub read_exchange_info : ExchangeInfoField p → Record → Option (ExchangeInfoField p)
  unfolding cell first_char poke_first
  read_exchange_info field row = do
    exchange_id ← cell row 0
    exchange_name ← cell row 1
    exch_type_id ← cell row 2
    currency_code ← cell row 3
    is_margin_favourable ← cell row 4
    comment ← cell row 5
    some (record {
      exchange_id = exchange_id;
      exchange_name = exchange_name;
      exch_type_id = p.to_int exch_type_id;
      currency_code = currency_code;
      is_margin_favourable = p.to_int is_margin_favourable;
      comment = comment;
    })
