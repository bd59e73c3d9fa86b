-- ===== src/Dblayer/CloudOrder/Laws.antt =====
-- What is written to the tables of cloud orders is what is read from it.
use vs2017code.Base.{
  ℕ, ◌≡◌, refl, Bytes, codes, true, false, List, [], ◌∷◌, Option, some, c_string, pos, is_ge,
  is_minus_one,
}
use vs2017code.Dblayer.Platform.{Platform, ConversionsRoundTrip, affected, result_set, Session, ok}
use vs2017code.Dblayer.Tables
use vs2017code.Dblayer.Database.{affected_rows}
use vs2017code.Dblayer.Operation.{ensure_connected}
use vs2017code.Dblayer.Statement.{select_expression, replace_into}
use vs2017code.Dblayer.CloudOrder.Operations.{upd_cloud_order}
use vs2017code.Dblayer.NewId.{id_text, upd_with_id_new}
use vs2017code.Dblayer.CloudOrder.Fields.{CloudOrderField, cloud_order_cells}
use vs2017code.Dblayer.CloudOrder.Reader.{read_cloud_order}

-- With a number above 0 each of the 31 columns that are written is read into the field that it was written from.
pub read_cloud_order-cloud_order_cells :
    {p : Platform} (laws : ConversionsRoundTrip p) (field cloud_order : CloudOrderField p)
    → is_ge (pos 0) (p.int_value cloud_order.cloud_order_id) ≡ false
    → read_cloud_order field (cloud_order_cells cloud_order) ≡ some cloud_order
unfolding read_cloud_order cloud_order_cells id_text
read_cloud_order-cloud_order_cells laws field cloud_order numbered =
    simp (numbered, laws.to_int-print_int, laws.to_double-print_double)

-- UpdCloudOrder of a row with the number 0, when the check of the connection passes, the statement changes
-- rows and the server answers the query for the largest number, returns true and fills in the
-- number of this answer.
pub upd_cloud_order_new :
    {p : Platform} (cloud_order : CloudOrderField p) (s t : Session p) (changed : ℕ)
    (fields : List (Bytes × ℕ)) (text : Bytes) (raw : List (Option Bytes))
    (middle server : p.Server)
    → p.int_value cloud_order.cloud_order_id ≡ pos 0
    → ensure_connected s ≡ (ok tt, t)
    → p.real_query t.server (replace_into Tables.cloud_order_table (cloud_order_cells cloud_order))
      ≡ (affected changed, middle)
    → is_minus_one (affected_rows (affected changed)) ≡ false
    → p.real_query middle
        (c_string (select_expression (codes "MAX(CloudOrderID)") Tables.cloud_order_table))
      ≡ (result_set fields ((some text ∷ raw) ∷ []), server)
    → upd_cloud_order cloud_order s ≡ (
      ok (true, record cloud_order { cloud_order_id = p.to_int (c_string text) }),
      record t { server = server },
    )
unfolding upd_cloud_order
upd_cloud_order_new cloud_order s t changed fields text raw middle server new c q done q' =
    rw
      (upd_with_id_new (replace_into Tables.cloud_order_table (cloud_order_cells cloud_order))
        (select_expression (codes "MAX(CloudOrderID)") Tables.cloud_order_table) text
        cloud_order.cloud_order_id s t changed fields raw middle server new c q done q')
      refl
