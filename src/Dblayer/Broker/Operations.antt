-- ===== src/Dblayer/Broker/Operations.antt =====
-- The operations on the table of brokers. The readers into a vector take, besides the arguments of the source,
-- what the uninitialised local `BrokerInfoField field` holds.
use vs2017code.Base.{Bytes, codes, Bool, List, []}
use vs2017code.Dblayer.Platform.{Platform, M}
use vs2017code.Dblayer.Tables.{broker_table}
use vs2017code.Dblayer.Statement.{select_where, select_all, equals}
use vs2017code.Dblayer.Single.{query_one, query_rows_some}
use vs2017code.Dblayer.Broker.Fields.{BrokerInfoField}
use vs2017code.Dblayer.Broker.Reader.{read_broker_info}

module _ {p : Platform} where
  unfoldable pub get_broker_info : BrokerInfoField p → Bytes → M p (Bool × BrokerInfoField p)
  get_broker_info field broker_id =
      query_one read_broker_info field
        (select_where broker_table (equals (codes "BrokerID") broker_id))

  -- The vector is cleared first.
  unfoldable pub get_all_broker_info :
      BrokerInfoField p → List (BrokerInfoField p) → M p (Bool × List (BrokerInfoField p))
  get_all_broker_info field vec =
      query_rows_some read_broker_info field (select_all broker_table) []
