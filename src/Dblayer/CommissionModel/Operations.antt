-- ===== src/Dblayer/CommissionModel/Operations.antt =====
-- The operations on the table of commission rate models. The readers into a vector take, besides the arguments of the source,
-- what the uninitialised local `CommissionRateModelInfoField field` holds.
use vs2017code.Base.{codes, Bool, List}
use vs2017code.Dblayer.Platform.{Platform, M}
use vs2017code.Dblayer.Tables.{commission_rate_model_table}
use vs2017code.Dblayer.Statement.{select_where, select_all, equals}
use vs2017code.Dblayer.Single.{query_one, query_rows_some}
use vs2017code.Dblayer.CommissionModel.Fields.{CommissionRateModelInfoField}
use vs2017code.Dblayer.CommissionModel.Reader.{read_commission_rate_model}

module _ {p : Platform} where
  unfoldable pub get_commission_rate_model_info :
      CommissionRateModelInfoField p → p.Int → M p (Bool × CommissionRateModelInfoField p)
  get_commission_rate_model_info field model_id = query_one read_commission_rate_model field (
      select_where commission_rate_model_table
        (equals (codes "CommissionRateModelID") (p.print_int model_id)))

  unfoldable pub get_all_commission_rate_model_info :
      CommissionRateModelInfoField p
      → List (CommissionRateModelInfoField p)
      → M p (Bool × List (CommissionRateModelInfoField p))
  get_all_commission_rate_model_info field vec =
      query_rows_some read_commission_rate_model field (select_all commission_rate_model_table) vec
