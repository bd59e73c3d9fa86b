-- ===== src/Dblayer/Trade/Laws.antt =====
-- What is written to the trade tables is what is read from them, and the statement of the reader
-- between two dates.
use vs2017code.Base.{
  ℕ, ◌+◌, ◌^◌, ◌<◌, ◌≡◌, ◌≢◌, refl, arith, Bytes, codes, true, List, [], ◌∷◌, ◌++◌, map, Option,
  some, length, c_string, ◌==◌, if◌then◌else◌,
}
use vs2017code.Dblayer.Platform.{Platform, ConversionsRoundTrip, result_set, Session, ok}
use vs2017code.Dblayer.Tables.{his_trade_table}
use vs2017code.Dblayer.RecordSet.{cell_text}
use vs2017code.Dblayer.Operation.{ensure_connected}
use vs2017code.Dblayer.Statement.{select_where, equals, ◌and◌, of_investor}
use vs2017code.Dblayer.Statement.Rows.{Reads, query_rows_success}
use vs2017code.Dblayer.Trade.Fields.{TradeField, trade_cells}
use vs2017code.Dblayer.Trade.Reader.{read_trade}
use vs2017code.Dblayer.Trade.Operations.{get_his_trade, date_range, his_trade_range}

-- Each of the 31 columns that UpdTrade writes, and the one more of the history table, is read into
-- the field that it was written from.
pub read_trade-trade_cells :
    {p : Platform} (laws : ConversionsRoundTrip p) (field trade : TradeField p) (more : List Bytes)
    → read_trade field (trade_cells trade ++ more) ≡ some trade
unfolding read_trade trade_cells
read_trade-trade_cells laws field trade more =
    simp (laws.to_int-print_int, laws.to_double-print_double)

-- The row of the history table that UpdHisTrade writes.
abbrev pub his_row : {p : Platform} → TradeField p → List Bytes
his_row trade = trade_cells trade ++ codes "0" ∷ []

stored_Reads :
    {p : Platform} (laws : ConversionsRoundTrip p) (field : TradeField p)
    (trades : List (TradeField p))
    → Reads read_trade field (map his_row trades) trades
stored_Reads laws field [] = tt
stored_Reads laws field (t ∷ trades) =
    (read_trade-trade_cells laws field t (codes "0" ∷ []), stored_Reads laws t trades)

-- GetHisTrade, when the check of the connection passes and the server answers its query with the
-- rows, fewer than 2^31, that UpdHisTrade writes of some trades, returns true and appends exactly
-- these trades, in the server's order.
pub get_his_trade_stored :
    {p : Platform} (laws : ConversionsRoundTrip p) (field : TradeField p)
    (vec trades : List (TradeField p)) (broker_id investor_id trading_day : Bytes) (s t : Session p)
    (fields : List (Bytes × ℕ)) (raws : List (List (Option Bytes))) (server : p.Server)
    → ensure_connected s ≡ (ok tt, t)
    → p.real_query t.server (
        c_string (
          select_where his_trade_table
            (of_investor broker_id investor_id and equals (codes "TradingDay") trading_day)))
      ≡ (result_set fields raws, server)
    → length raws < 2 ^ 31
    → map (map cell_text) raws ≡ map his_row trades
    → get_his_trade field vec broker_id investor_id trading_day s
      ≡ (ok (true, vec ++ trades), record t { server = server })
unfolding get_his_trade
get_his_trade_stored laws field vec trades broker_id investor_id trading_day s t fields raws server
      c q size stored =
    query_rows_success read_trade field _ vec s t fields raws trades server c q size
      (rw stored (stored_Reads laws field trades))

-- How many single quotes a text holds.
abbrev pub quotes : Bytes → ℕ
quotes [] = 0
quotes (c ∷ s) = (if c == b'\'' then 1 else 0) + quotes s

pub quotes-append : (s t : Bytes) → quotes (s ++ t) ≡ quotes s + quotes t
quotes-append [] t = omega arith
quotes-append (c ∷ s) t = omega (arith, quotes-append s t)

abbrev pub HasNoQuote : Bytes → Type 0
HasNoQuote s = quotes s ≡ 0

quotes-date_range :
    (begin_date end_date : Bytes)
    → HasNoQuote begin_date
    → HasNoQuote end_date
    → begin_date ++ end_date ≢ []
    → quotes (date_range begin_date end_date) ≡ 1
unfolding date_range
quotes-date_range [] [] hb he given = absurd (given refl)
quotes-date_range [] (e ∷ end) hb he given = omega arith
quotes-date_range (b ∷ begin) [] hb he given = omega arith
quotes-date_range (b ∷ begin) (e ∷ end) hb he given =
    omega (arith, quotes-append begin (codes " AND " ++ (e ∷ end)))

-- The statement of GetHisTrade between two dates, at least one of which is given, holds
-- three single quotes, an odd number, when the arguments hold none: a literal is never closed.
pub his_trade_range_odd :
    (broker_id investor_id begin_date end_date : Bytes)
    → HasNoQuote broker_id
    → HasNoQuote investor_id
    → HasNoQuote begin_date
    → HasNoQuote end_date
    → begin_date ++ end_date ≢ []
    → quotes (his_trade_range broker_id investor_id begin_date end_date) ≡ 3
unfolding his_trade_range
his_trade_range_odd broker_id investor_id begin_date end_date hb hi hbegin hend given = omega (
  arith,
  quotes-append broker_id _,
  quotes-append investor_id (date_range begin_date end_date ++ codes ";"),
  quotes-append (date_range begin_date end_date) (codes ";"),
  quotes-date_range begin_date end_date hbegin hend given,
)
