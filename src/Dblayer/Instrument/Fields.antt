-- ===== src/Dblayer/Instrument/Fields.antt =====
-- InstrumentInfoField as dblayer/src/mysql/DBOperation.cpp uses it: the fields that it writes to the table of instruments
-- and reads from it, in the order of the columns. The struct is declared in pbserdes/ETPTypes.h, outside
-- the repository: a `char` array is the text before its NUL, and its capacity is not modelled.
use vs2017code.Base.{Bytes, List, [], ◌∷◌}
use vs2017code.Dblayer.Platform.{Platform}

pub record InstrumentInfoField (p : Platform) : Type 0 where
  pub instrument_id : Bytes
  pub instrument_name : Bytes
  pub product_id : Bytes
  pub exchange_id : Bytes
  pub exchange_inst_id : Bytes
  pub product_class : Bytes
  pub delivery_year : p.Int
  pub delivery_month : p.Int
  pub max_market_order_volume : p.Int
  pub min_market_order_volume : p.Int
  pub max_limit_order_volume : p.Int
  pub min_limit_order_volume : p.Int
  pub volume_multiple : p.Double
  pub price_tick : p.Double
  pub create_date : Bytes
  pub open_date : Bytes
  pub expire_date : Bytes
  pub start_deliv_date : Bytes
  pub end_deliv_date : Bytes
  pub inst_life_phase : Bytes
  pub is_trading : p.Int
  pub position_type : Bytes
  pub position_date_type : Bytes
  pub long_margin_ratio : p.Double
  pub short_margin_ratio : p.Double
  pub is_arbitrage : p.Int
  pub underlying_instr_id : Bytes
  pub strike_price : p.Double
  pub options_type : Bytes
  pub underlying_multiple : p.Double
  pub combination_type : Bytes

module _ {p : Platform} where
  -- The values of the statement, one for each column.
  unfoldable pub instrument_info_cells : InstrumentInfoField p → List Bytes
  instrument_info_cells instrument =
      instrument.instrument_id
      ∷ instrument.instrument_name
      ∷ instrument.product_id
      ∷ instrument.exchange_id
      ∷ instrument.exchange_inst_id
      ∷ instrument.product_class
      ∷ p.print_int instrument.delivery_year
      ∷ p.print_int instrument.delivery_month
      ∷ p.print_int instrument.max_market_order_volume
      ∷ p.print_int instrument.min_market_order_volume
      ∷ p.print_int instrument.max_limit_order_volume
      ∷ p.print_int instrument.min_limit_order_volume
      ∷ p.print_double instrument.volume_multiple
      ∷ p.print_double instrument.price_tick
      ∷ instrument.create_date
      ∷ instrument.open_date
      ∷ instrument.expire_date
      ∷ instrument.start_deliv_date
      ∷ instrument.end_deliv_date
      ∷ instrument.inst_life_phase
      ∷ p.print_int instrument.is_trading
      ∷ instrument.position_type
      ∷ instrument.position_date_type
      ∷ p.print_double instrument.long_margin_ratio
      ∷ p.print_double instrument.short_margin_ratio
      ∷ p.print_int instrument.is_arbitrage
      ∷ instrument.underlying_instr_id
      ∷ p.print_double instrument.strike_price
      ∷ instrument.options_type
      ∷ p.print_double instrument.underlying_multiple
      ∷ instrument.combination_type
      ∷ []
