-- ===== src/Dblayer/Product/Laws.antt =====
-- What is written to the table of products is what is read from it.
use vs2017code.Base.{
  ℕ, ◌^◌, ◌<◌, ◌≡◌, Bytes, codes, true, List, ◌∷◌, map, Option, some, length, c_string,
}
use vs2017code.Dblayer.Platform.{Platform, ConversionsRoundTrip, result_set, Session, ok}
use vs2017code.Dblayer.Tables
use vs2017code.Dblayer.RecordSet.{cell_text}
use vs2017code.Dblayer.Operation.{ensure_connected}
use vs2017code.Dblayer.Statement.{select_where, equals}
use vs2017code.Dblayer.Single.{query_one_found}
use vs2017code.Dblayer.Product.Operations.{get_product_info}
use vs2017code.Dblayer.Product.Fields.{ProductInfoField, product_info_cells}
use vs2017code.Dblayer.Product.Reader.{read_product_info}

-- Each of the 7 columns that are written is read into the field that it was written from.
pub read_product_info-product_info_cells :
    {p : Platform} (laws : ConversionsRoundTrip p) (field product : ProductInfoField p)
    → read_product_info field (product_info_cells product) ≡ some product
unfolding read_product_info product_info_cells
read_product_info-product_info_cells laws field product = simp (laws.to_double-print_double)

-- GetProductInfo, when the check of the connection passes and the server answers its query with
-- rows of which the first is that of a stored product, returns true and fills in exactly this.
pub get_product_info_stored :
    {p : Platform} (laws : ConversionsRoundTrip p) (field stored : ProductInfoField p)
    (product_id : Bytes) (s t : Session p) (fields : List (Bytes × ℕ)) (raw : List (Option Bytes))
    (raws : List (List (Option Bytes))) (server : p.Server)
    → ensure_connected s ≡ (ok tt, t)
    → p.real_query t.server
        (c_string (select_where Tables.product_table (equals (codes "ProductID") product_id)))
      ≡ (result_set fields (raw ∷ raws), server)
    → length (raw ∷ raws) < 2 ^ 31
    → map cell_text raw ≡ product_info_cells stored
    → get_product_info field product_id s ≡ (ok (true, stored), record t { server = server })
unfolding get_product_info
get_product_info_stored laws field stored product_id s t fields raw raws server c q size same =
    query_one_found read_product_info field _ s t server fields raw raws stored c q size
      (rw same (read_product_info-product_info_cells laws field stored))
