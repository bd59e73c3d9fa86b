-- ===== src/Dblayer/PositionDetail/Reader.antt =====
-- How the readers of the table of position details fill a InvestorPositionDetailField from a row, column by column.
use vs2017code.Base.{Option, some}
use vs2017code.Dblayer.Platform.{Platform}
use vs2017code.Dblayer.RecordSet.{Record, cell}
use vs2017code.Base.Chain.{◌>>=◌}
use vs2017code.Dblayer.Statement.{first_char, poke_first}
use vs2017code.Dblayer.PositionDetail.Fields.{InvestorPositionDetailField}

module _ {p : Platform} where
  -- The assignments of one round of the loop to `field`, which holds what the last round left;
  -- `none` is a column that the row does not have.
  unfoldable pub read_position_detail :
      InvestorPositionDetailField p → Record → Option (InvestorPositionDetailField p)
  unfolding cell first_char poke_first
  read_position_detail field row = do
    broker_id ← cell row 0
    investor_id ← cell row 1
    instrument_id ← cell row 2
    direction ← cell row 3
    hedge_flag ← cell row 4
    open_date ← cell row 5
    trade_id ← cell row 6
    open_price ← cell row 7
    volume ← cell row 8
    trade_type ← cell row 9
    comb_instrument_id ← cell row 10
    exchange_id ← cell row 11
    margin ← cell row 12
    last_settlement_price ← cell row 13
    trading_day ← cell row 14
    some (record {
      broker_id = broker_id;
      investor_id = investor_id;
      instrument_id = instrument_id;
      direction = first_char direction;
      hedge_flag = first_char hedge_flag;
      open_date = open_date;
      trade_id = trade_id;
      open_price = p.to_double open_price;
      volume = p.to_int volume;
      trade_type = first_char trade_type;
      comb_instrument_id = comb_instrument_id;
      exchange_id = exchange_id;
      margin = p.to_double margin;
      last_settlement_price = p.to_double last_settlement_price;
      trading_day = trading_day;
    })
