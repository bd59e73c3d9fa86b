-- ===== src/Dblayer/Exchange/Operations.antt =====
-- The operations on the table of exchanges. The readers into a vector take, besides the arguments of the source,
-- what the uninitialised local `ExchangeInfoField field` holds.
use vs2017code.Base.{Bytes, codes, Bool, List, []}
use vs2017code.Dblayer.Platform.{Platform, M}
use vs2017code.Dblayer.Tables.{exchange_table}
use vs2017code.Dblayer.Statement.{select_where, select_all, equals}
use vs2017code.Dblayer.Single.{query_one, query_rows_some}
use vs2017code.Dblayer.Exchange.Fields.{ExchangeInfoField}
use vs2017code.Dblayer.Exchange.Reader.{read_exchange_info}

module _ {p : Platform} where
  unfoldable pub get_exchange_info : ExchangeInfoField p → Bytes → M p (Bool × ExchangeInfoField p)
  get_exchange_info field exchange_id =
      query_one read_exchange_info field
        (select_where exchange_table (equals (codes "ExchangeID") exchange_id))

  -- The vector is cleared first.
  unfoldable pub get_all_exchange_info :
      ExchangeInfoField p → List (ExchangeInfoField p) → M p (Bool × List (ExchangeInfoField p))
  get_all_exchange_info field vec =
      query_rows_some read_exchange_info field (select_all exchange_table) []
