-- ===== src/Dblayer/Investor/Laws.antt =====
-- What is written to the table of investors is what is read from it.
use vs2017code.Base.{
  ℕ, ◌^◌, ◌<◌, ◌≡◌, arith, Bytes, true, List, [], ◌∷◌, ◌++◌, map, Option, some, length, c_string,
}
use vs2017code.Dblayer.Platform.{Platform, ConversionsRoundTrip, result_set, Session, ok}
use vs2017code.Dblayer.Tables
use vs2017code.Dblayer.RecordSet.{cell_text, fetched}
use vs2017code.Dblayer.Operation.{ensure_connected}
use vs2017code.Dblayer.Operation.Reconnect.{ensure_connected_live}
use vs2017code.Dblayer.Statement.{read_rows, select_where, of_investor}
use vs2017code.Dblayer.Statement.Rows.{Reads, length-map, take_all, read_rows_lem}
use vs2017code.Dblayer.Single.{query_one_found}
use vs2017code.Dblayer.Investor.Operations.{
  get_investor_info, query_investors_of_range, between_ids,
}
use vs2017code.Dblayer.Investor.Fields.{InvestorInfoField, investor_info_cells}
use vs2017code.Dblayer.Investor.Reader.{read_investor_info, read_investor_of_server}

-- Each of the 17 columns that are written is read into the field that it was written from.
pub read_investor_info-investor_info_cells :
    {p : Platform} (laws : ConversionsRoundTrip p) (field investor : InvestorInfoField p)
    → read_investor_info field (investor_info_cells investor) ≡ some investor
unfolding read_investor_info investor_info_cells
read_investor_info-investor_info_cells laws field investor =
    simp (laws.to_int-print_int, laws.to_double-print_double)

-- GetInvestorInfo, when the check of the connection passes and the server answers its query with
-- rows of which the first is that of a stored investor, returns true and fills in exactly this.
pub get_investor_info_stored :
    {p : Platform} (laws : ConversionsRoundTrip p) (field stored : InvestorInfoField p)
    (broker_id investor_id : Bytes) (s t : Session p) (fields : List (Bytes × ℕ))
    (raw : List (Option Bytes)) (raws : List (List (Option Bytes))) (server : p.Server)
    → ensure_connected s ≡ (ok tt, t)
    → p.real_query t.server
        (c_string (select_where Tables.investor_table (of_investor broker_id investor_id)))
      ≡ (result_set fields (raw ∷ raws), server)
    → length (raw ∷ raws) < 2 ^ 31
    → map cell_text raw ≡ investor_info_cells stored
    → get_investor_info field broker_id investor_id s
      ≡ (ok (true, stored), record t { server = server })
unfolding get_investor_info
get_investor_info_stored laws field stored broker_id investor_id s t fields raw raws server c q size
      same =
    query_one_found read_investor_info field _ s t server fields raw raws stored c q size
      (rw same (read_investor_info-investor_info_cells laws field stored))

-- An investor with the trade counter of another one.
abbrev pub with_counter_of :
    {p : Platform} → InvestorInfoField p → InvestorInfoField p → InvestorInfoField p
with_counter_of first x = record x { trade_counter_id = first.trade_counter_id }

read_investor_of_server_cells :
    {p : Platform} (laws : ConversionsRoundTrip p) (first field x : InvestorInfoField p)
    → read_investor_of_server (investor_info_cells first) field (investor_info_cells x)
      ≡ some (with_counter_of first x)
unfolding read_investor_of_server investor_info_cells
read_investor_of_server_cells laws first field x =
    simp (laws.to_int-print_int, laws.to_double-print_double)

-- The loop over the rows of a server's investors gives each of them the trade counter of the first.
read_rows_of_server :
    {p : Platform} (laws : ConversionsRoundTrip p) (first field : InvestorInfoField p)
    (vec stored : List (InvestorInfoField p)) (s : Session p)
    → read_rows
        (read_investor_of_server (investor_info_cells first))
        field
        (map investor_info_cells stored)
        vec
        s
      ≡ (ok (true, vec ++ map (with_counter_of first) stored), s)
read_rows_of_server {p = p} laws first field vec stored s =
    read_rows_lem (read_investor_of_server (investor_info_cells first)) field
      (map investor_info_cells stored) (map (with_counter_of first) stored) vec s
      (reads field stored)
  where
    reads :
        (field : InvestorInfoField p) (stored : List (InvestorInfoField p))
        → Reads
            (read_investor_of_server (investor_info_cells first))
            field
            (map investor_info_cells stored)
            (map (with_counter_of first) stored)
    reads field [] = tt
    reads field (x ∷ stored) =
        (read_investor_of_server_cells laws first field x, reads (with_counter_of first x) stored)

-- GetInvestorInfo of a server, from its second query on: when the check of the connection passes
-- and the server answers the query for the range with the rows of at least one investor, fewer than
-- 2^31, it returns true and appends the investors, each with the trade counter of the first one.
pub query_investors_of_range_first :
    {p : Platform} (laws : ConversionsRoundTrip p) (field first : InvestorInfoField p)
    (vec rest : List (InvestorInfoField p)) (from to : Bytes) (s t : Session p)
    (fields : List (Bytes × ℕ)) (raws : List (List (Option Bytes))) (server : p.Server)
    → ensure_connected s ≡ (ok tt, t)
    → p.real_query t.server (c_string (select_where Tables.investor_table (between_ids from to)))
      ≡ (result_set fields raws, server)
    → length raws < 2 ^ 31
    → map (map cell_text) raws ≡ map investor_info_cells (first ∷ rest)
    → query_investors_of_range field vec (from, to) s
      ≡ (ok (true, vec ++ map (with_counter_of first) (first ∷ rest)), record t { server = server })
unfolding query_investors_of_range fetched
query_investors_of_range_first laws field first vec rest from to s t fields [] server c q size
      same =
    absurd (cc)
query_investors_of_range_first laws field first vec rest from to s t fields (raw ∷ raws) server c q
      size same =
    ground (
      arith,
      ensure_connected_live s,
      length-map (map cell_text) raws,
      take_all (map (map cell_text) raws) (length raws),
      read_rows_of_server laws first field vec (first ∷ rest) (record t { server = server }),
    )
