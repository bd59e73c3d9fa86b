-- ===== src/Dblayer/Position/Reader.antt =====
-- How the readers of the position tables fill a InvestorPositionField from a row, column by column.
use vs2017code.Base.{Option, some}
use vs2017code.Dblayer.Platform.{Platform}
use vs2017code.Dblayer.RecordSet.{Record, cell}
use vs2017code.Base.Chain.{◌>>=◌}
use vs2017code.Dblayer.Statement.{first_char, poke_first}
use vs2017code.Dblayer.Position.Fields.{InvestorPositionField}

module _ {p : Platform} where
  -- The assignments of one round of the loop to `field`, which holds what the last round left;
  -- `none` is a column that the row does not have.
  unfoldable pub read_position : InvestorPositionField p → Record → Option (InvestorPositionField p)
  unfolding cell first_char poke_first
  read_position field row = do
    trading_day ← cell row 0
    broker_id ← cell row 1
    investor_id ← cell row 2
    instrument_id ← cell row 3
    posi_direction ← cell row 4
    hedge_flag ← cell row 5
    avg_position_price ← cell row 6
    position_date ← cell row 7
    yd_position ← cell row 8
    position ← cell row 9
    long_frozen ← cell row 10
    short_frozen ← cell row 11
    long_frozen_amount ← cell row 12
    short_frozen_amount ← cell row 13
    open_volume ← cell row 14
    close_volume ← cell row 15
    open_amount ← cell row 16
    close_amount ← cell row 17
    position_cost ← cell row 18
    pre_margin ← cell row 19
    use_margin ← cell row 20
    frozen_margin ← cell row 21
    frozen_cash ← cell row 22
    frozen_commission ← cell row 23
    cash_in ← cell row 24
    commission ← cell row 25
    close_profit ← cell row 26
    position_profit ← cell row 27
    pre_settlement_price ← cell row 28
    settlement_price ← cell row 29
    settlement_id ← cell row 30
    open_cost ← cell row 31
    exchange_margin ← cell row 32
    comb_position ← cell row 33
    comb_long_frozen ← cell row 34
    comb_short_frozen ← cell row 35
    close_profit_by_date ← cell row 36
    close_profit_by_trade ← cell row 37
    today_position ← cell row 38
    margin_rate_by_money ← cell row 39
    margin_rate_by_volume ← cell row 40
    closable_num ← cell row 41
    today_closable_num ← cell row 42
    some (record {
      trading_day = trading_day;
      broker_id = broker_id;
      investor_id = investor_id;
      instrument_id = instrument_id;
      posi_direction = first_char posi_direction;
      hedge_flag = first_char hedge_flag;
      avg_position_price = p.to_double avg_position_price;
      position_date = first_char position_date;
      yd_position = p.to_int yd_position;
      position = p.to_int position;
      long_frozen = p.to_int long_frozen;
      short_frozen = p.to_int short_frozen;
      long_frozen_amount = p.to_double long_frozen_amount;
      short_frozen_amount = p.to_double short_frozen_amount;
      open_volume = p.to_int open_volume;
      close_volume = p.to_int close_volume;
      open_amount = p.to_double open_amount;
      close_amount = p.to_double close_amount;
      position_cost = p.to_double position_cost;
      pre_margin = p.to_double pre_margin;
      use_margin = p.to_double use_margin;
      frozen_margin = p.to_double frozen_margin;
      frozen_cash = p.to_double frozen_cash;
      frozen_commission = p.to_double frozen_commission;
      cash_in = p.to_double cash_in;
      commission = p.to_double commission;
      close_profit = p.to_double close_profit;
      position_profit = p.to_double position_profit;
      pre_settlement_price = p.to_double pre_settlement_price;
      settlement_price = p.to_double settlement_price;
      settlement_id = p.to_int settlement_id;
      open_cost = p.to_double open_cost;
      exchange_margin = p.to_double exchange_margin;
      comb_position = p.to_int comb_position;
      comb_long_frozen = p.to_int comb_long_frozen;
      comb_short_frozen = p.to_int comb_short_frozen;
      close_profit_by_date = p.to_double close_profit_by_date;
      close_profit_by_trade = p.to_double close_profit_by_trade;
      today_position = p.to_int today_position;
      margin_rate_by_money = p.to_double margin_rate_by_money;
      margin_rate_by_volume = p.to_double margin_rate_by_volume;
      closable_num = p.to_int closable_num;
      today_closable_num = p.to_int today_closable_num;
    })
