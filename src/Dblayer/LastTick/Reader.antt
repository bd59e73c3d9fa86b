-- ===== src/Dblayer/LastTick/Reader.antt =====
-- How the readers of the table of last ticks fill a DepthMarketDataField from a row, column by column.
use vs2017code.Base.{Option, some}
use vs2017code.Dblayer.Platform.{Platform}
use vs2017code.Dblayer.RecordSet.{Record, cell}
use vs2017code.Base.Chain.{◌>>=◌}
use vs2017code.Dblayer.Statement.{first_char, poke_first}
use vs2017code.Dblayer.LastTick.Fields.{DepthMarketDataField}

module _ {p : Platform} where
  -- The assignments of one round of the loop to `field`, which holds what the last round left;
  -- `none` is a column that the row does not have.
  unfoldable pub read_last_tick : DepthMarketDataField p → Record → Option (DepthMarketDataField p)
  unfolding cell first_char poke_first
  read_last_tick field row = do
    trading_day ← cell row 0
    instrument_id ← cell row 1
    exchange_id ← cell row 2
    last_price ← cell row 3
    open_price ← cell row 4
    highest_price ← cell row 5
    lowest_price ← cell row 6
    close_price ← cell row 7
    open_interest ← cell row 8
    turnover ← cell row 9
    update_time ← cell row 10
    update_millisec ← cell row 11
    some (record {
      trading_day = trading_day;
      instrument_id = instrument_id;
      exchange_id = exchange_id;
      last_price = p.to_double last_price;
      open_price = p.to_double open_price;
      highest_price = p.to_double highest_price;
      lowest_price = p.to_double lowest_price;
      close_price = p.to_double close_price;
      open_interest = p.to_double open_interest;
      turnover = p.to_double turnover;
      update_time = update_time;
      update_millisec = p.to_int update_millisec;
    })
