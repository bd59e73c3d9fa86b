-- ===== src/Dblayer/AutoStopLoss/Fields.antt =====
-- AutoStopLossField as dblayer/src/mysql/DBOperation.cpp uses it: the fields that it writes to the table of stop losses
-- and reads from it, in the order of the columns. The struct is declared in pbserdes/ETPTypes.h, outside
-- the repository: a `char` array is the text before its NUL, and its capacity is not modelled.
use vs2017code.Base.{Bytes, List, [], ◌∷◌}
use vs2017code.Dblayer.Platform.{Platform}

pub record AutoStopLossField (p : Platform) : Type 0 where
  pub broker_id : Bytes
  pub investor_id : Bytes
  pub instrument_id : Bytes
  pub auto_stop_loss_tick_num : p.Int
  pub auto_winning_tick_num : p.Int
  pub floating_stop_loss_tick_num : p.Int
  pub floating_stop_winning_tick_num : p.Int
  pub step : p.Double

module _ {p : Platform} where
  -- The values of the statement, one for each column.
  unfoldable pub auto_stop_loss_cells : AutoStopLossField p → List Bytes
  auto_stop_loss_cells limits =
      limits.broker_id
      ∷ limits.investor_id
      ∷ limits.instrument_id
      ∷ p.print_int limits.auto_stop_loss_tick_num
      ∷ p.print_int limits.auto_winning_tick_num
      ∷ p.print_int limits.floating_stop_loss_tick_num
      ∷ p.print_int limits.floating_stop_winning_tick_num
      ∷ p.print_double limits.step
      ∷ []
