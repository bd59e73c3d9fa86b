-- ===== src/Dblayer/Product/Operations.antt =====
-- The operations on the table of products. The readers into a vector take, besides the arguments of the source,
-- what the uninitialised local `ProductInfoField field` holds.
use vs2017code.Base.{Bytes, codes, Bool, List, []}
use vs2017code.Dblayer.Platform.{Platform, M}
use vs2017code.Dblayer.Tables.{product_table}
use vs2017code.Dblayer.Operation.{run_update}
use vs2017code.Dblayer.Statement.{replace_into, select_where, select_all, equals}
use vs2017code.Dblayer.Single.{query_one, query_rows_some}
use vs2017code.Dblayer.Product.Fields.{ProductInfoField, product_info_cells}
use vs2017code.Dblayer.Product.Reader.{read_product_info}

module _ {p : Platform} where
  unfoldable pub upd_product_info : ProductInfoField p → M p Bool
  upd_product_info product = run_update (replace_into product_table (product_info_cells product))

  unfoldable pub get_product_info : ProductInfoField p → Bytes → M p (Bool × ProductInfoField p)
  get_product_info field product_id =
      query_one read_product_info field
        (select_where product_table (equals (codes "ProductID") product_id))

  -- The vector is cleared first.
  unfoldable pub get_all_product_info :
      ProductInfoField p → List (ProductInfoField p) → M p (Bool × List (ProductInfoField p))
  get_all_product_info field vec =
      query_rows_some read_product_info field (select_all product_table) []
