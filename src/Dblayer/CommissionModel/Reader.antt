-- ===== src/Dblayer/CommissionModel/Reader.antt =====
-- How the readers of the table of commission rate models fill a CommissionRateModelInfoField from a row, column by column.
use vs2017code.Base.{Option, some}
use vs2017code.Dblayer.Platform.{Platform}
use vs2017code.Dblayer.RecordSet.{Record, cell}
use vs2017code.Base.Chain.{◌>>=◌}
use vs2017code.Dblayer.Statement.{first_char, poke_first}
use vs2017code.Dblayer.CommissionModel.Fields.{CommissionRateModelInfoField}

module _ {p : Platform} where
  -- The assignments of one round of the loop to `field`, which holds what the last round left;
  -- `none` is a column that the row does not have.
  unfoldable pub read_commission_rate_model :
      CommissionRateModelInfoField p → Record → Option (CommissionRateModelInfoField p)
  unfolding cell first_char poke_first
  read_commission_rate_model field row = do
    commission_rate_model_id ← cell row 0
    commission_rate_model_name ← cell row 1
    creator ← cell row 2
    create_date ← cell row 3
    comment ← cell row 4
    is_basics_model ← cell row 5
    base_on_basics_by_money ← cell row 6
    base_on_basics_by_volume ← cell row 7
    some (record {
      commission_rate_model_id = p.to_int commission_rate_model_id;
      commission_rate_model_name = commission_rate_model_name;
      creator = creator;
      create_date = create_date;
      comment = comment;
      is_basics_model = p.to_int is_basics_model;
      base_on_basics_by_money = p.to_double base_on_basics_by_money;
      base_on_basics_by_volume = p.to_double base_on_basics_by_volume;
    })
