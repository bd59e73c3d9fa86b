-- ===== src/Dblayer/CloudOrder/Fields.antt =====
-- CloudOrderField as dblayer/src/mysql/DBOperation.cpp uses it: the fields that it writes to the tables of cloud orders
-- and reads from it, in the order of the columns. The struct is declared in pbserdes/ETPTypes.h, outside
-- the repository: a `char` array is the text before its NUL, and its capacity is not modelled.
use vs2017code.Base.{Bytes, List, [], ◌∷◌}
use vs2017code.Dblayer.Platform.{Platform}
use vs2017code.Dblayer.NewId.{id_text}

pub record CloudOrderField (p : Platform) : Type 0 where
  pub cloud_order_id : p.Int
  pub broker_id : Bytes
  pub investor_id : Bytes
  pub exchange_id : Bytes
  pub instrument_id : Bytes
  pub direction : Bytes
  pub offset_flag : Bytes
  pub hedge_flag : Bytes
  pub type : Bytes
  pub triggering_time : Bytes
  pub validity_period_type : Bytes
  pub insert_date : Bytes
  pub insert_time : Bytes
  pub price : p.Double
  pub total_volume : p.Int
  pub traded_volume : p.Int
  pub frozen_volume : p.Int
  pub status : p.Int
  pub status_msg : Bytes
  pub price_type : Bytes
  pub triggering_price_type : Bytes
  pub min_price : p.Double
  pub max_price : p.Double
  pub lead_order_insert_tick : p.Int
  pub step : p.Int
  pub max_winning_price : p.Double
  pub stop_winning_tick_num : p.Int
  pub stop_lossing_tick_num : p.Int
  pub stop_winning_price : p.Double
  pub stop_lossing_price : p.Double
  pub triggering_date : Bytes

module _ {p : Platform} where
  -- The values of the statement, one for each column.
  unfoldable pub cloud_order_cells : CloudOrderField p → List Bytes
  unfolding id_text
  cloud_order_cells cloud_order =
      id_text p cloud_order.cloud_order_id
      ∷ cloud_order.broker_id
      ∷ cloud_order.investor_id
      ∷ cloud_order.exchange_id
      ∷ cloud_order.instrument_id
      ∷ cloud_order.direction
      ∷ cloud_order.offset_flag
      ∷ cloud_order.hedge_flag
      ∷ cloud_order.type
      ∷ cloud_order.triggering_time
      ∷ cloud_order.validity_period_type
      ∷ cloud_order.insert_date
      ∷ cloud_order.insert_time
      ∷ p.print_double cloud_order.price
      ∷ p.print_int cloud_order.total_volume
      ∷ p.print_int cloud_order.traded_volume
      ∷ p.print_int cloud_order.frozen_volume
      ∷ p.print_int cloud_order.status
      ∷ cloud_order.status_msg
      ∷ cloud_order.price_type
      ∷ cloud_order.triggering_price_type
      ∷ p.print_double cloud_order.min_price
      ∷ p.print_double cloud_order.max_price
      ∷ p.print_int cloud_order.lead_order_insert_tick
      ∷ p.print_int cloud_order.step
      ∷ p.print_double cloud_order.max_winning_price
      ∷ p.print_int cloud_order.stop_winning_tick_num
      ∷ p.print_int cloud_order.stop_lossing_tick_num
      ∷ p.print_double cloud_order.stop_winning_price
      ∷ p.print_double cloud_order.stop_lossing_price
      ∷ cloud_order.triggering_date
      ∷ []
