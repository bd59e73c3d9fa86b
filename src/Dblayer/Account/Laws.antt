-- ===== src/Dblayer/Account/Laws.antt =====
-- What is written to the account tables is what is read from them, and what the results of the two
-- readers tell apart.
use vs2017code.Base.{
  ℕ, ◌^◌, ◌<◌, ◌≡◌, sym, ap, ◌∙◌, Bytes, codes, List, [], ◌∷◌, map, Option, some, length, ◌⊎◌, inl,
  inr, c_string, pos,
}
use vs2017code.Dblayer.Platform.{
  Platform, ConversionsRoundTrip, Reply, failed, result_set, Session, ok,
}
use vs2017code.Dblayer.Tables.{trading_account_table, investor_settlement_cash_table}
use vs2017code.Dblayer.Database.{minus_one}
use vs2017code.Dblayer.RecordSet.{cell_text}
use vs2017code.Dblayer.Operation.{ensure_connected}
use vs2017code.Dblayer.Statement.{select_where, equals, ◌and◌, of_investor}
use vs2017code.Dblayer.Single.{query_row_found, query_row_empty, query_row_failure}
use vs2017code.Dblayer.Account.Fields.{TradingAccountField, trading_account_cells}
use vs2017code.Dblayer.Account.Reader.{read_trading_account}
use vs2017code.Dblayer.Account.Operations.{get_trading_account, get_settlement_cash}

-- Each of the 30 columns that are written is read into the field that it was written from.
pub read_trading_account-trading_account_cells :
    {p : Platform} (laws : ConversionsRoundTrip p) (field account : TradingAccountField p)
    → read_trading_account field (trading_account_cells account) ≡ some account
unfolding read_trading_account trading_account_cells
read_trading_account-trading_account_cells laws field account =
    simp (laws.to_int-print_int, laws.to_double-print_double)

module _ {p : Platform} (field : TradingAccountField p) (broker_id investor_id : Bytes) where
  -- The text of the query of GetTradingAccount.
  abbrev pub account_query : Bytes
  account_query = c_string (select_where trading_account_table (of_investor broker_id investor_id))

  -- GetTradingAccount reports a query that failed exactly as it reports an account that does not
  -- exist: it returns 0 and leaves the field as it was.
  pub get_trading_account_no_failure :
      (s t : Session p) (server : p.Server) (fields : List (Bytes × ℕ)) (reply : Reply)
      → ensure_connected s ≡ (ok tt, t)
      → p.real_query t.server account_query ≡ (reply, server)
      → (reply ≡ failed) ⊎ (reply ≡ result_set fields [])
      → get_trading_account field broker_id investor_id s
        ≡ (ok (pos 0, field), record t { server = server })
  unfolding get_trading_account
  get_trading_account_no_failure s t server fields reply c q (inl e) =
      query_row_failure read_trading_account field _ s t server (pos 0) c
        (q ∙ ap (λ r. (r, server)) e)
  get_trading_account_no_failure s t server fields reply c q (inr e) =
      query_row_empty read_trading_account field _ s t server (pos 0) fields c
        (q ∙ ap (λ r. (r, server)) e)

  -- GetTradingAccount, when the check of the connection passes and the server answers with fewer
  -- than 2^31 rows, the row of an account first, returns 1 and that account.
  pub get_trading_account_stored :
      (laws : ConversionsRoundTrip p) (account : TradingAccountField p) (s t : Session p)
      (server : p.Server) (fields : List (Bytes × ℕ)) (raw : List (Option Bytes))
      (raws : List (List (Option Bytes)))
      → ensure_connected s ≡ (ok tt, t)
      → p.real_query t.server account_query ≡ (result_set fields (raw ∷ raws), server)
      → length (raw ∷ raws) < 2 ^ 31
      → map cell_text raw ≡ trading_account_cells account
      → get_trading_account field broker_id investor_id s
        ≡ (ok (pos 1, account), record t { server = server })
  unfolding get_trading_account
  get_trading_account_stored laws account s t server fields raw raws c q size stored =
      query_row_found read_trading_account field _ s t server (pos 0) fields raw raws account c q
        size (rw stored (read_trading_account-trading_account_cells laws field account))

  -- GetSettlementCash does tell them apart: it leaves the field as it was, and returns -1 when the
  -- query failed and 0 when there is no row.
  pub get_settlement_cash_failure :
      (trading_day : Bytes) (s t : Session p) (server : p.Server) (fields : List (Bytes × ℕ))
      (reply : Reply)
      → ensure_connected s ≡ (ok tt, t)
      → p.real_query t.server (
          c_string (
            select_where investor_settlement_cash_table
              (of_investor broker_id investor_id and equals (codes "TradingDay") trading_day)))
        ≡ (reply, server)
      → (reply ≡ failed) ⊎ (reply ≡ result_set fields [])
      → get_settlement_cash field broker_id investor_id trading_day s
        ≡ (ok (elim reply [ failed ↦ minus_one | _ ↦ pos 0 ], field), record t { server = server })
  unfolding get_settlement_cash
  get_settlement_cash_failure trading_day s t server fields reply c q (inl e) =
      query_row_failure read_trading_account field _ s t server minus_one c
        (q ∙ ap (λ r. (r, server)) e)
      ∙ ap
          (λ r.
            (ok (elim r [ failed ↦ minus_one | _ ↦ pos 0 ], field), record t { server = server }))
          (sym e)
  get_settlement_cash_failure trading_day s t server fields reply c q (inr e) =
      query_row_empty read_trading_account field _ s t server minus_one fields c
        (q ∙ ap (λ r. (r, server)) e)
      ∙ ap
          (λ r.
            (ok (elim r [ failed ↦ minus_one | _ ↦ pos 0 ], field), record t { server = server }))
          (sym e)
