-- ===== src/Dblayer/TradeCounter/Laws.antt =====
-- What is written to the table of trade counters is what is read from it.
use vs2017code.Base.{
  ℕ, ◌≡◌, refl, Bytes, codes, true, false, List, [], ◌∷◌, Option, some, c_string, pos, is_ge,
  is_minus_one,
}
use vs2017code.Dblayer.Platform.{Platform, ConversionsRoundTrip, affected, result_set, Session, ok}
use vs2017code.Dblayer.Tables
use vs2017code.Dblayer.Database.{affected_rows}
use vs2017code.Dblayer.Operation.{ensure_connected}
use vs2017code.Dblayer.Statement.{select_expression, replace_into}
use vs2017code.Dblayer.TradeCounter.Operations.{upd_trade_counter}
use vs2017code.Dblayer.NewId.{id_text, upd_with_id_new}
use vs2017code.Dblayer.TradeCounter.Fields.{TradeCounterField, trade_counter_cells}
use vs2017code.Dblayer.TradeCounter.Reader.{read_trade_counter}

-- With a number above 0 each of the 9 columns that are written is read into the field that it was written from.
pub read_trade_counter-trade_counter_cells :
    {p : Platform} (laws : ConversionsRoundTrip p) (field counter : TradeCounterField p)
    → is_ge (pos 0) (p.int_value counter.trade_counter_id) ≡ false
    → read_trade_counter field (trade_counter_cells counter) ≡ some counter
unfolding read_trade_counter trade_counter_cells id_text
read_trade_counter-trade_counter_cells laws field counter numbered =
    simp (numbered, laws.to_int-print_int)

-- UpdTradeCounter of a row with the number 0, when the check of the connection passes, the statement changes
-- rows and the server answers the query for the largest number, returns true and fills in the
-- number of this answer.
pub upd_trade_counter_new :
    {p : Platform} (counter : TradeCounterField p) (s t : Session p) (changed : ℕ)
    (fields : List (Bytes × ℕ)) (text : Bytes) (raw : List (Option Bytes))
    (middle server : p.Server)
    → p.int_value counter.trade_counter_id ≡ pos 0
    → ensure_connected s ≡ (ok tt, t)
    → p.real_query t.server (replace_into Tables.trade_counter_table (trade_counter_cells counter))
      ≡ (affected changed, middle)
    → is_minus_one (affected_rows (affected changed)) ≡ false
    → p.real_query middle
        (c_string (select_expression (codes "MAX(TradeCounterID)") Tables.trade_counter_table))
      ≡ (result_set fields ((some text ∷ raw) ∷ []), server)
    → upd_trade_counter counter s ≡ (
      ok (true, record counter { trade_counter_id = p.to_int (c_string text) }),
      record t { server = server },
    )
unfolding upd_trade_counter
upd_trade_counter_new counter s t changed fields text raw middle server new c q done q' =
    rw
      (upd_with_id_new (replace_into Tables.trade_counter_table (trade_counter_cells counter))
        (select_expression (codes "MAX(TradeCounterID)") Tables.trade_counter_table) text
        counter.trade_counter_id s t changed fields raw middle server new c q done q')
      refl
