-- ===== src/Dblayer/MarginModel/Operations.antt =====
-- The operations on the table of margin rate models. The readers into a vector take, besides the arguments of the source,
-- what the uninitialised local `MarginRateModelInfoField field` holds.
use vs2017code.Base.{codes, Bool, List}
use vs2017code.Dblayer.Platform.{Platform, M}
use vs2017code.Dblayer.Tables.{margin_rate_model_table}
use vs2017code.Dblayer.Statement.{select_where, select_all, equals}
use vs2017code.Dblayer.Single.{query_one, query_rows_some}
use vs2017code.Dblayer.MarginModel.Fields.{MarginRateModelInfoField}
use vs2017code.Dblayer.MarginModel.Reader.{read_margin_rate_model}

module _ {p : Platform} where
  unfoldable pub get_margin_rate_model_info :
      MarginRateModelInfoField p → p.Int → M p (Bool × MarginRateModelInfoField p)
  get_margin_rate_model_info field model_id = query_one read_margin_rate_model field (
      select_where margin_rate_model_table
        (equals (codes "MarginRateModelID") (p.print_int model_id)))

  unfoldable pub get_all_margin_rate_model_info :
      MarginRateModelInfoField p
      → List (MarginRateModelInfoField p)
      → M p (Bool × List (MarginRateModelInfoField p))
  get_all_margin_rate_model_info field vec =
      query_rows_some read_margin_rate_model field (select_all margin_rate_model_table) vec
