-- ===== src/Dblayer/Product/Reader.antt =====
-- How the readers of the table of products fill a ProductInfoField from a row, column by column.
use vs2017code.Base.{Option, some}
use vs2017code.Dblayer.Platform.{Platform}
use vs2017code.Dblayer.RecordSet.{Record, cell}
use vs2017code.Base.Chain.{◌>>=◌}
use vs2017code.Dblayer.Statement.{first_char, poke_first}
use vs2017code.Dblayer.Product.Fields.{ProductInfoField}

module _ {p : Platform} where
  -- The assignments of one round of the loop to `field`, which holds what the last round left;
  -- `none` is a column that the row does not have.
  unfoldable pub read_product_info : ProductInfoField p → Record → Option (ProductInfoField p)
  unfolding cell first_char poke_first
  read_product_info field row = do
    product_id ← cell row 0
    product_name ← cell row 1
    volume_multiple ← cell row 2
    price_tick ← cell row 3
    exchange_id ← cell row 4
    exchange_name ← cell row 5
    type ← cell row 6
    some (record {
      product_id = product_id;
      product_name = product_name;
      volume_multiple = p.to_double volume_multiple;
      price_tick = p.to_double price_tick;
      exchange_id = exchange_id;
      exchange_name = exchange_name;
      type = type;
    })
