-- ===== src/Dblayer/Product/Fields.antt =====
-- ProductInfoField as dblayer/src/mysql/DBOperation.cpp uses it: the fields that it writes to the table of products
-- and reads from it, in the order of the columns. The struct is declared in pbserdes/ETPTypes.h, outside
-- the repository: a `char` array is the text before its NUL, and its capacity is not modelled.
use vs2017code.Base.{Bytes, List, [], ◌∷◌}
use vs2017code.Dblayer.Platform.{Platform}

pub record ProductInfoField (p : Platform) : Type 0 where
  pub product_id : Bytes
  pub product_name : Bytes
  pub volume_multiple : p.Double
  pub price_tick : p.Double
  pub exchange_id : Bytes
  pub exchange_name : Bytes
  pub type : Bytes

module _ {p : Platform} where
  -- The values of the statement, one for each column.
  unfoldable pub product_info_cells : ProductInfoField p → List Bytes
  product_info_cells product =
      product.product_id
      ∷ product.product_name
      ∷ p.print_double product.volume_multiple
      ∷ p.print_double product.price_tick
      ∷ product.exchange_id
      ∷ product.exchange_name
      ∷ product.type
      ∷ []
