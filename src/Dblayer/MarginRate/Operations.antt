-- ===== src/Dblayer/MarginRate/Operations.antt =====
-- The operations on the table of margin rates. The readers into a vector take, besides the arguments of the source,
-- what the uninitialised local `MarginRateInfoField field` holds.
use vs2017code.Base.{
  zero, suc, pos, negsuc, take, Option, none, some, ◌&&◌, if◌then◌else◌, Bytes, codes, Bool, true,
  false, List,
}
use vs2017code.Dblayer.Platform.{Platform, M, return, catch_all, ◌>>=◌, ◌>>◌}
use vs2017code.Dblayer.RecordSet.{Record, execute_sql, new_record_set}
use vs2017code.Dblayer.MarginModel.Fields.{MarginRateModelInfoField}
use vs2017code.Dblayer.MarginModel.Operations.{get_margin_rate_model_info}
use vs2017code.Dblayer.Tables.{margin_rate_table}
use vs2017code.Dblayer.Operation.{run_update, ensure_connected}
use vs2017code.Dblayer.Statement.{replace_into, select_where, select_all, equals, read_rows}
use vs2017code.Dblayer.Single.{query_one, query_rows_some}
use vs2017code.Dblayer.MarginRate.Fields.{MarginRateInfoField, margin_rate_cells}
use vs2017code.Dblayer.MarginRate.Reader.{read_margin_rate}

module _ {p : Platform} where
  unfoldable pub upd_margin_rate_info : MarginRateInfoField p → M p Bool
  upd_margin_rate_info rate = run_update (replace_into margin_rate_table (margin_rate_cells rate))

  -- What the model does to a rate, if it was found.
  unfoldable pub scale_margin_rate :
      Bool × MarginRateModelInfoField p → MarginRateInfoField p → MarginRateInfoField p
  scale_margin_rate (found, model) rate =
      let base : p.Double = model.base_on_basics in
      if found && p.greater base p.double_one
      then record rate {
        long_margin_ratio_by_money = p.times rate.long_margin_ratio_by_money base;
        long_margin_ratio_by_volume = p.times rate.long_margin_ratio_by_volume base;
        short_margin_ratio_by_money = p.times rate.short_margin_ratio_by_money base;
        short_margin_ratio_by_volume = p.times rate.short_margin_ratio_by_volume base;
      }
      else rate

  -- The model is assigned before the columns.
  unfoldable pub read_margin_rate_of :
      p.Int → MarginRateInfoField p → Record → Option (MarginRateInfoField p)
  unfolding read_margin_rate
  read_margin_rate_of model_id field row =
      read_margin_rate (record field { margin_rate_model_id = model_id }) row

  -- `model` is what the uninitialised struct of the model holds.
  unfoldable pub get_margin_rate_info :
      MarginRateInfoField p
      → MarginRateModelInfoField p
      → p.Int
      → Bytes
      → M p (Bool × MarginRateInfoField p)
  unfolding scale_margin_rate read_margin_rate_of
  get_margin_rate_info field model model_id instrument_id = do
    result ←
        query_one (read_margin_rate_of model_id) field
          (select_where margin_rate_table (equals (codes "InstrumentID") instrument_id))
    elim result.0 [
      | false ↦ return result
      | true ↦ do
        found ← get_margin_rate_model_info model model_id
        return (true, scale_margin_rate found result.1)
    ]

  unfoldable pub read_scaled :
      Bool × MarginRateModelInfoField p
      → p.Int
      → MarginRateInfoField p
      → Record
      → Option (MarginRateInfoField p)
  unfolding scale_margin_rate read_margin_rate_of
  read_scaled found model_id field row = elim (read_margin_rate_of model_id field row) [
    | none ↦ none
    | some rate ↦ some (scale_margin_rate found rate)
  ]

  -- The query for the model stands between the query for the rows and their loop.
  unfoldable pub get_margin_rates_of_model :
      MarginRateInfoField p
      → MarginRateModelInfoField p
      → List (MarginRateInfoField p)
      → p.Int
      → M p (Bool × List (MarginRateInfoField p))
  unfolding execute_sql read_scaled
  get_margin_rates_of_model field model vec model_id =
      catch_all (false, vec)
        (do
          ensure_connected
          answer ← execute_sql new_record_set (select_all margin_rate_table)
          elim answer.0 [
            | negsuc n ↦ return (false, vec)
            | pos count ↦ elim count [
              | zero ↦ return (false, vec)
              | suc more ↦ do
                found ← get_margin_rate_model_info model model_id
                read_rows (read_scaled found model_id) field (take (suc more) answer.1.rows) vec
            ]
          ])

  unfoldable pub get_all_margin_rate_info :
      MarginRateInfoField p
      → List (MarginRateInfoField p)
      → M p (Bool × List (MarginRateInfoField p))
  get_all_margin_rate_info field vec =
      query_rows_some read_margin_rate field (select_all margin_rate_table) vec
