-- ===== src/Dblayer/Order/Fields.antt =====
-- OrderField as dblayer/src/mysql/DBOperation.cpp uses it: the fields that it writes to the order tables
-- and reads from it, in the order of the columns. The struct is declared in pbserdes/ETPTypes.h, outside
-- the repository: a `char` array is the text before its NUL, and its capacity is not modelled.
use vs2017code.Base.{ℕ, Bytes, List, [], ◌∷◌, c_string}
use vs2017code.Dblayer.Platform.{Platform}

pub record OrderField (p : Platform) : Type 0 where
  pub broker_id : Bytes
  pub investor_id : Bytes
  pub instrument_id : Bytes
  pub order_ref : Bytes
  pub user_id : Bytes
  pub order_price_type : ℕ
  pub direction : ℕ
  pub comb_offset_flag : Bytes
  pub comb_hedge_flag : Bytes
  pub limit_price : p.Double
  pub volume_total_original : p.Int
  pub time_condition : ℕ
  pub gtd_date : Bytes
  pub volume_condition : ℕ
  pub min_volume : p.Int
  pub contingent_condition : ℕ
  pub stop_price : p.Double
  pub force_close_reason : ℕ
  pub is_auto_suspend : p.Int
  pub business_unit : Bytes
  pub request_id : p.Int
  pub order_local_id : Bytes
  pub exchange_id : Bytes
  pub participant_id : Bytes
  pub client_id : Bytes
  pub exchange_inst_id : Bytes
  pub trader_id : Bytes
  pub install_id : p.Int
  pub order_submit_status : ℕ
  pub notify_sequence : p.Int
  pub trading_day : Bytes
  pub settlement_id : p.Int
  pub order_sys_id : Bytes
  pub order_source : ℕ
  pub order_status : ℕ
  pub order_type : ℕ
  pub volume_traded : p.Int
  pub volume_total : p.Int
  pub insert_date : Bytes
  pub insert_time : Bytes
  pub active_time : Bytes
  pub suspend_time : Bytes
  pub update_time : Bytes
  pub cancel_time : Bytes
  pub active_trader_id : Bytes
  pub clearing_part_id : Bytes
  pub sequence_no : p.Int
  pub front_id : p.Int
  pub session_id : p.Int
  pub user_product_info : Bytes
  pub status_msg : Bytes
  pub user_force_close : p.Int
  pub active_user_id : Bytes
  pub broker_order_seq : p.Int
  pub relative_order_sys_id : Bytes
  pub zce_total_traded_volume : p.Int
  pub is_swap_order : p.Int

module _ {p : Platform} where
  -- The values of the statement, one for each column.
  unfoldable pub order_cells : OrderField p → List Bytes
  order_cells order =
      order.broker_id
      ∷ order.investor_id
      ∷ order.instrument_id
      ∷ order.order_ref
      ∷ order.user_id
      ∷ (order.order_price_type ∷ [])
      ∷ (order.direction ∷ [])
      ∷ c_string order.comb_offset_flag
      ∷ c_string order.comb_hedge_flag
      ∷ p.print_double order.limit_price
      ∷ p.print_int order.volume_total_original
      ∷ (order.time_condition ∷ [])
      ∷ order.gtd_date
      ∷ (order.volume_condition ∷ [])
      ∷ p.print_int order.min_volume
      ∷ (order.contingent_condition ∷ [])
      ∷ p.print_double order.stop_price
      ∷ (order.force_close_reason ∷ [])
      ∷ p.print_int order.is_auto_suspend
      ∷ order.business_unit
      ∷ p.print_int order.request_id
      ∷ order.order_local_id
      ∷ order.exchange_id
      ∷ order.participant_id
      ∷ order.client_id
      ∷ order.exchange_inst_id
      ∷ order.trader_id
      ∷ p.print_int order.install_id
      ∷ (order.order_submit_status ∷ [])
      ∷ p.print_int order.notify_sequence
      ∷ order.trading_day
      ∷ p.print_int order.settlement_id
      ∷ order.order_sys_id
      ∷ (order.order_source ∷ [])
      ∷ (order.order_status ∷ [])
      ∷ (order.order_type ∷ [])
      ∷ p.print_int order.volume_traded
      ∷ p.print_int order.volume_total
      ∷ order.insert_date
      ∷ order.insert_time
      ∷ order.active_time
      ∷ order.suspend_time
      ∷ order.update_time
      ∷ order.cancel_time
      ∷ order.active_trader_id
      ∷ order.clearing_part_id
      ∷ p.print_int order.sequence_no
      ∷ p.print_int order.front_id
      ∷ p.print_int order.session_id
      ∷ order.user_product_info
      ∷ order.status_msg
      ∷ p.print_int order.user_force_close
      ∷ order.active_user_id
      ∷ p.print_int order.broker_order_seq
      ∷ order.relative_order_sys_id
      ∷ p.print_int order.zce_total_traded_volume
      ∷ p.print_int order.is_swap_order
      ∷ []
