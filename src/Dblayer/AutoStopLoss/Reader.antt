-- ===== src/Dblayer/AutoStopLoss/Reader.antt =====
-- How the readers of the table of stop losses fill a AutoStopLossField from a row, column by column.
use vs2017code.Base.{Option, some}
use vs2017code.Dblayer.Platform.{Platform}
use vs2017code.Dblayer.RecordSet.{Record, cell}
use vs2017code.Base.Chain.{◌>>=◌}
use vs2017code.Dblayer.Statement.{first_char, poke_first}
use vs2017code.Dblayer.AutoStopLoss.Fields.{AutoStopLossField}

module _ {p : Platform} where
  -- The assignments of one round of the loop to `field`, which holds what the last round left;
  -- `none` is a column that the row does not have.
  unfoldable pub read_auto_stop_loss : AutoStopLossField p → Record → Option (AutoStopLossField p)
  unfolding cell first_char poke_first
  read_auto_stop_loss field row = do
    broker_id ← cell row 0
    investor_id ← cell row 1
    instrument_id ← cell row 2
    auto_stop_loss_tick_num ← cell row 3
    auto_winning_tick_num ← cell row 4
    floating_stop_loss_tick_num ← cell row 5
    floating_stop_winning_tick_num ← cell row 6
    step ← cell row 7
    some (record {
      broker_id = broker_id;
      investor_id = investor_id;
      instrument_id = instrument_id;
      auto_stop_loss_tick_num = p.to_int auto_stop_loss_tick_num;
      auto_winning_tick_num = p.to_int auto_winning_tick_num;
      floating_stop_loss_tick_num = p.to_int floating_stop_loss_tick_num;
      floating_stop_winning_tick_num = p.to_int floating_stop_winning_tick_num;
      step = p.to_double step;
    })
