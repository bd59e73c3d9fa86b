-- ===== src/Dblayer/Order/Laws.antt =====
-- What is written to the order tables is what is read from them.
use vs2017code.Base.{
  ℕ, ◌^◌, ◌<◌, ◌≡◌, refl, Bytes, codes, true, List, [], ◌∷◌, ◌++◌, map, Option, some, length,
  c_string,
}
use mathlib.Core.Path.{ap₂}
use vs2017code.Dblayer.Platform.{Platform, ConversionsRoundTrip, affected, result_set, Session, ok}
use vs2017code.Dblayer.Tables.{order_table}
use vs2017code.Dblayer.RecordSet.{cell_text}
use vs2017code.Dblayer.Operation.{ensure_connected}
use vs2017code.Dblayer.Operation.Reconnect.{run_update_success}
use vs2017code.Dblayer.Statement.{
  first_char, poke_first, replace_into, select_where, select_all, equals, ◌and◌, of_investor,
  query_rows,
}
use vs2017code.Dblayer.Statement.Rows.{Reads, query_rows_success}
use vs2017code.Dblayer.Order.Fields.{OrderField, order_cells}
use vs2017code.Dblayer.Order.Reader.{read_order}
use vs2017code.Dblayer.Order.Operations.{upd_order, get_order, get_all_order}

-- An order as it comes back: of the two arrays of combination flags only the first character is
-- assigned, and the rest is that of the local variable.
abbrev pub as_read : {p : Platform} → OrderField p → OrderField p → OrderField p
as_read field order = record order {
  comb_offset_flag =
      poke_first field.comb_offset_flag (first_char (c_string order.comb_offset_flag));
  comb_hedge_flag = poke_first field.comb_hedge_flag (first_char (c_string order.comb_hedge_flag));
}

-- Each of the 57 columns that UpdOrder writes is read into the field that it was written from: all
-- fields come back, but of the combination flags the first character only.
pub read_order-order_cells :
    {p : Platform} (laws : ConversionsRoundTrip p) (field order : OrderField p)
    → read_order field (order_cells order) ≡ some (as_read field order)
unfolding read_order order_cells
read_order-order_cells laws field order = simp (laws.to_int-print_int, laws.to_double-print_double)

poke_first-poke_first : (s : Bytes) (c d : ℕ) → poke_first (poke_first s c) d ≡ poke_first s d
unfolding poke_first
poke_first-poke_first [] c d = refl
poke_first-poke_first (b ∷ s) c d = refl

as_read-as_read :
    {p : Platform} (field order next : OrderField p)
    → as_read (as_read field order) next ≡ as_read field next
as_read-as_read field order next = simp poke_first-poke_first

map-as_read :
    {p : Platform} (field order : OrderField p) (orders : List (OrderField p))
    → map (as_read (as_read field order)) orders ≡ map (as_read field) orders
map-as_read field order [] = refl
map-as_read field order (o ∷ orders) =
    ap₂ ◌∷◌ (as_read-as_read field order o) (map-as_read field order orders)

stored_Reads :
    {p : Platform} (laws : ConversionsRoundTrip p) (field : OrderField p)
    (orders : List (OrderField p))
    → Reads read_order field (map order_cells orders) (map (as_read field) orders)
stored_Reads laws field [] = tt
stored_Reads laws field (o ∷ orders) = (
  read_order-order_cells laws field o,
  rw (← map-as_read field o orders) (stored_Reads laws (as_read field o) orders),
)

module _ {p : Platform} (laws : ConversionsRoundTrip p) (field : OrderField p)
    (vec orders : List (OrderField p)) where
  -- The body of the six readers, on rows that hold orders.
  pub query_rows_stored :
      (sql : Bytes) (s t : Session p) (fields : List (Bytes × ℕ))
      (raws : List (List (Option Bytes))) (server : p.Server)
      → ensure_connected s ≡ (ok tt, t)
      → p.real_query t.server (c_string sql) ≡ (result_set fields raws, server)
      → length raws < 2 ^ 31
      → map (map cell_text) raws ≡ map order_cells orders
      → query_rows read_order field sql vec s
        ≡ (ok (true, vec ++ map (as_read field) orders), record t { server = server })
  query_rows_stored sql s t fields raws server c q size stored =
      query_rows_success read_order field sql vec s t fields raws (map (as_read field) orders)
        server c q size (rw stored (stored_Reads laws field orders))

  -- GetOrder, when the check of the connection passes and the server answers its query with the rows
  -- of some orders, fewer than 2^31, returns true and appends these orders as they are read, in the
  -- server's order: all fields, but of the combination flags the first character only.
  pub get_order_stored :
      (broker_id investor_id trading_day : Bytes) (s t : Session p) (fields : List (Bytes × ℕ))
      (raws : List (List (Option Bytes))) (server : p.Server)
      → ensure_connected s ≡ (ok tt, t)
      → p.real_query t.server (
          c_string (
            select_where order_table
              (of_investor broker_id investor_id and equals (codes "TradingDay") trading_day)))
        ≡ (result_set fields raws, server)
      → length raws < 2 ^ 31
      → map (map cell_text) raws ≡ map order_cells orders
      → get_order field vec broker_id investor_id trading_day s
        ≡ (ok (true, vec ++ map (as_read field) orders), record t { server = server })
  unfolding get_order
  get_order_stored broker_id investor_id trading_day = query_rows_stored _

-- UpdOrder followed by GetAllOrder, where the connection check passes both times and the server
-- accepts the REPLACE and then answers the SELECT with the one row of the values that were written:
-- UpdOrder returns true, and GetAllOrder true with the order, as it is read, appended.
pub get_all_order-upd_order :
    {p : Platform} (laws : ConversionsRoundTrip p) (field order : OrderField p)
    (vec : List (OrderField p)) (s t u : Session p) (fields : List (Bytes × ℕ))
    (raws : List (List (Option Bytes))) (n : ℕ) (stored answered : p.Server)
    → ensure_connected s ≡ (ok tt, t)
    → p.real_query t.server (replace_into order_table (order_cells order)) ≡ (affected n, stored)
    → n < 2 ^ 31
    → ensure_connected (record t { server = stored }) ≡ (ok tt, u)
    → p.real_query u.server (c_string (select_all order_table)) ≡ (result_set fields raws, answered)
    → length raws < 2 ^ 31
    → map (map cell_text) raws ≡ order_cells order ∷ []
    → ((upd_order order s).0 ≡ ok true)
      × (get_all_order field vec (upd_order order s).1
          ≡ (ok (true, vec ++ as_read field order ∷ []), record u { server = answered }))
unfolding upd_order get_all_order
get_all_order-upd_order laws field order vec s t u fields raws n stored answered c w small c' q size
      rows =
    rw (run_update_success _ s t n stored c w small) (
      refl,
      query_rows_stored laws field vec (order ∷ []) _ _ u fields raws answered c' q size rows,
    )
