-- ===== src/Dblayer/Tables.antt =====
-- dblayer/src/mysql/Tables.h: the names of the tables that are modelled.
use vs2017code.Base.{Bytes, codes}

abbrev pub order_table : Bytes
order_table = codes "t_etp_order"

abbrev pub his_order_table : Bytes
his_order_table = codes "t_etp_hisorder"

abbrev pub trade_table : Bytes
trade_table = codes "t_etp_trade"

abbrev pub his_trade_table : Bytes
his_trade_table = codes "t_etp_histrade"

abbrev pub trading_account_table : Bytes
trading_account_table = codes "t_etp_tradingaccount"

abbrev pub investor_settlement_cash_table : Bytes
investor_settlement_cash_table = codes "t_etp_investorsettlementcash"

abbrev pub position_table : Bytes
position_table = codes "t_etp_position"

abbrev pub his_position_table : Bytes
his_position_table = codes "t_etp_hisposition"

abbrev pub cash_flow_table : Bytes
cash_flow_table = codes "t_etp_cashflow"

abbrev pub his_cash_flow_table : Bytes
his_cash_flow_table = codes "t_etp_hiscashflow"

abbrev pub position_detail_table : Bytes
position_detail_table = codes "t_etp_positiondetail"

abbrev pub cloud_order_table : Bytes
cloud_order_table = codes "t_etp_cloudorder"

abbrev pub his_cloud_order_table : Bytes
his_cloud_order_table = codes "t_etp_hiscloudorder"

abbrev pub exec_order_table : Bytes
exec_order_table = codes "t_etp_execorder"

abbrev pub his_exec_order_table : Bytes
his_exec_order_table = codes "t_etp_hisexecorder"

abbrev pub last_tick_table : Bytes
last_tick_table = codes "t_etp_lasttick"

abbrev pub settlement_sheet_table : Bytes
settlement_sheet_table = codes "t_etp_investorsettlementsheet"

abbrev pub settlement_confirm_info_table : Bytes
settlement_confirm_info_table = codes "t_etp_settlementconfirminfo"

abbrev pub daily_settlement_flag_table : Bytes
daily_settlement_flag_table = codes "t_etp_dailysettlementflag"

abbrev pub auto_stop_loss_table : Bytes
auto_stop_loss_table = codes "t_m_AutoStopLoss"

abbrev pub trade_risk_tmpl_table : Bytes
trade_risk_tmpl_table = codes "t_etp_traderisktmpl"

abbrev pub trade_counter_table : Bytes
trade_counter_table = codes "t_etp_tradecounter"

abbrev pub investor_table : Bytes
investor_table = codes "t_etp_investor"

abbrev pub user_login_log_table : Bytes
user_login_log_table = codes "t_etp_userloginlog"

abbrev pub exchange_table : Bytes
exchange_table = codes "t_etp_exchange"

abbrev pub broker_table : Bytes
broker_table = codes "t_etp_broker"

abbrev pub product_table : Bytes
product_table = codes "t_etp_product"

abbrev pub instrument_table : Bytes
instrument_table = codes "t_etp_instrument"

abbrev pub margin_rate_model_table : Bytes
margin_rate_model_table = codes "t_etp_marginratemodel"

abbrev pub margin_rate_table : Bytes
margin_rate_table = codes "t_etp_marginrate"

abbrev pub commission_rate_model_table : Bytes
commission_rate_model_table = codes "t_etp_commissionratemodel"

abbrev pub commission_rate_table : Bytes
commission_rate_table = codes "t_etp_commissionrate"

abbrev pub investor_server_port_conf_table : Bytes
investor_server_port_conf_table = codes "t_m_investorserverportconf"

abbrev pub info_table : Bytes
info_table = codes "t_m_info"

abbrev pub member_table : Bytes
member_table = codes "t_m_member"
