-- ===== src/Dblayer/MarginModel/Reader.antt =====
-- How the readers of the table of margin rate models fill a MarginRateModelInfoField from a row, column by column.
use vs2017code.Base.{Option, some}
use vs2017code.Dblayer.Platform.{Platform}
use vs2017code.Dblayer.RecordSet.{Record, cell}
use vs2017code.Base.Chain.{◌>>=◌}
use vs2017code.Dblayer.Statement.{first_char, poke_first}
use vs2017code.Dblayer.MarginModel.Fields.{MarginRateModelInfoField}

module _ {p : Platform} where
  -- The assignments of one round of the loop to `field`, which holds what the last round left;
  -- `none` is a column that the row does not have.
  unfoldable pub read_margin_rate_model :
      MarginRateModelInfoField p → Record → Option (MarginRateModelInfoField p)
  unfolding cell first_char poke_first
  read_margin_rate_model field row = do
    margin_rate_model_id ← cell row 0
    margin_rate_model_name ← cell row 1
    creator ← cell row 2
    create_date ← cell row 3
    comment ← cell row 4
    is_basics_model ← cell row 5
    base_on_basics ← cell row 6
    some (record {
      margin_rate_model_id = p.to_int margin_rate_model_id;
      margin_rate_model_name = margin_rate_model_name;
      creator = creator;
      create_date = create_date;
      comment = comment;
      is_basics_model = p.to_int is_basics_model;
      base_on_basics = p.to_double base_on_basics;
    })
