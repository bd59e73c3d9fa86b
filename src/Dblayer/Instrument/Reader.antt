-- ===== src/Dblayer/Instrument/Reader.antt =====
-- How the readers of the table of instruments fill a InstrumentInfoField from a row, column by column.
use vs2017code.Base.{Option, some}
use vs2017code.Dblayer.Platform.{Platform}
use vs2017code.Dblayer.RecordSet.{Record, cell}
use vs2017code.Base.Chain.{◌>>=◌}
use vs2017code.Dblayer.Statement.{first_char, poke_first}
use vs2017code.Dblayer.Instrument.Fields.{InstrumentInfoField}

module _ {p : Platform} where
  -- The assignments of one round of the loop to `field`, which holds what the last round left;
  -- `none` is a column that the row does not have.
  unfoldable pub read_instrument_info :
      InstrumentInfoField p → Record → Option (InstrumentInfoField p)
  unfolding cell first_char poke_first
  read_instrument_info field row = do
    instrument_id ← cell row 0
    instrument_name ← cell row 1
    product_id ← cell row 2
    exchange_id ← cell row 3
    exchange_inst_id ← cell row 4
    product_class ← cell row 5
    delivery_year ← cell row 6
    delivery_month ← cell row 7
    max_market_order_volume ← cell row 8
    min_market_order_volume ← cell row 9
    max_limit_order_volume ← cell row 10
    min_limit_order_volume ← cell row 11
    volume_multiple ← cell row 12
    price_tick ← cell row 13
    create_date ← cell row 14
    open_date ← cell row 15
    expire_date ← cell row 16
    start_deliv_date ← cell row 17
    end_deliv_date ← cell row 18
    inst_life_phase ← cell row 19
    is_trading ← cell row 20
    position_type ← cell row 21
    position_date_type ← cell row 22
    long_margin_ratio ← cell row 23
    short_margin_ratio ← cell row 24
    is_arbitrage ← cell row 25
    underlying_instr_id ← cell row 26
    strike_price ← cell row 27
    options_type ← cell row 28
    underlying_multiple ← cell row 29
    combination_type ← cell row 30
    some (record {
      instrument_id = instrument_id;
      instrument_name = instrument_name;
      product_id = product_id;
      exchange_id = exchange_id;
      exchange_inst_id = exchange_inst_id;
      product_class = product_class;
      delivery_year = p.to_int delivery_year;
      delivery_month = p.to_int delivery_month;
      max_market_order_volume = p.to_int max_market_order_volume;
      min_market_order_volume = p.to_int min_market_order_volume;
      max_limit_order_volume = p.to_int max_limit_order_volume;
      min_limit_order_volume = p.to_int min_limit_order_volume;
      volume_multiple = p.to_double volume_multiple;
      price_tick = p.to_double price_tick;
      create_date = create_date;
      open_date = open_date;
      expire_date = expire_date;
      start_deliv_date = start_deliv_date;
      end_deliv_date = end_deliv_date;
      inst_life_phase = inst_life_phase;
      is_trading = p.to_int is_trading;
      position_type = position_type;
      position_date_type = position_date_type;
      long_margin_ratio = p.to_double long_margin_ratio;
      short_margin_ratio = p.to_double short_margin_ratio;
      is_arbitrage = p.to_int is_arbitrage;
      underlying_instr_id = underlying_instr_id;
      strike_price = p.to_double strike_price;
      options_type = options_type;
      underlying_multiple = p.to_double underlying_multiple;
      combination_type = combination_type;
    })
