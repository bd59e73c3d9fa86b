-- ===== src/Dblayer/ExecOrder/Fields.antt =====
-- ExecOrderField as dblayer/src/mysql/DBOperation.cpp uses it: the fields that it writes to the tables of exercise orders
-- and reads from it, in the order of the columns. The struct is declared in pbserdes/ETPTypes.h, outside
-- the repository: a `char` array is the text before its NUL, and its capacity is not modelled.
use vs2017code.Base.{Bytes, List, [], ◌∷◌}
use vs2017code.Dblayer.Platform.{Platform}

pub record ExecOrderField (p : Platform) : Type 0 where
  pub broker_id : Bytes
  pub investor_id : Bytes
  pub instrument_id : Bytes
  pub exec_order_ref : Bytes
  pub user_id : Bytes
  pub volume : p.Int
  pub request_id : p.Int
  pub business_unit : Bytes
  pub offset_flag : Bytes
  pub hedge_flag : Bytes
  pub action_type : Bytes
  pub posi_direction : Bytes
  pub reserve_position_flag : Bytes
  pub close_flag : Bytes
  pub exec_order_local_id : Bytes
  pub exchange_id : Bytes
  pub participant_id : Bytes
  pub client_id : Bytes
  pub exchange_inst_id : Bytes
  pub trader_id : Bytes
  pub install_id : p.Int
  pub order_submit_status : Bytes
  pub notify_sequence : p.Int
  pub trading_day : Bytes
  pub settlement_id : p.Int
  pub exec_order_sys_id : Bytes
  pub insert_date : Bytes
  pub insert_time : Bytes
  pub cancel_time : Bytes
  pub exec_result : Bytes
  pub clearing_part_id : Bytes
  pub sequence_no : p.Int
  pub front_id : p.Int
  pub session_id : p.Int
  pub user_product_info : Bytes
  pub status_msg : Bytes
  pub active_user_id : Bytes
  pub broker_exec_order_seq : p.Int
  pub branch_id : Bytes
  pub invest_unit_id : Bytes
  pub account_id : Bytes
  pub currency_id : Bytes
  pub ip_address : Bytes
  pub mac_address : Bytes

module _ {p : Platform} where
  -- The values of the statement, one for each column.
  unfoldable pub exec_order_cells : ExecOrderField p → List Bytes
  exec_order_cells exec_order =
      exec_order.broker_id
      ∷ exec_order.investor_id
      ∷ exec_order.instrument_id
      ∷ exec_order.exec_order_ref
      ∷ exec_order.user_id
      ∷ p.print_int exec_order.volume
      ∷ p.print_int exec_order.request_id
      ∷ exec_order.business_unit
      ∷ exec_order.offset_flag
      ∷ exec_order.hedge_flag
      ∷ exec_order.action_type
      ∷ exec_order.posi_direction
      ∷ exec_order.reserve_position_flag
      ∷ exec_order.close_flag
      ∷ exec_order.exec_order_local_id
      ∷ exec_order.exchange_id
      ∷ exec_order.participant_id
      ∷ exec_order.client_id
      ∷ exec_order.exchange_inst_id
      ∷ exec_order.trader_id
      ∷ p.print_int exec_order.install_id
      ∷ exec_order.order_submit_status
      ∷ p.print_int exec_order.notify_sequence
      ∷ exec_order.trading_day
      ∷ p.print_int exec_order.settlement_id
      ∷ exec_order.exec_order_sys_id
      ∷ exec_order.insert_date
      ∷ exec_order.insert_time
      ∷ exec_order.cancel_time
      ∷ exec_order.exec_result
      ∷ exec_order.clearing_part_id
      ∷ p.print_int exec_order.sequence_no
      ∷ p.print_int exec_order.front_id
      ∷ p.print_int exec_order.session_id
      ∷ exec_order.user_product_info
      ∷ exec_order.status_msg
      ∷ exec_order.active_user_id
      ∷ p.print_int exec_order.broker_exec_order_seq
      ∷ exec_order.branch_id
      ∷ exec_order.invest_unit_id
      ∷ exec_order.account_id
      ∷ exec_order.currency_id
      ∷ exec_order.ip_address
      ∷ exec_order.mac_address
      ∷ []
