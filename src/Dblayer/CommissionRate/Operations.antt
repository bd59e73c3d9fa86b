-- ===== src/Dblayer/CommissionRate/Operations.antt =====
-- The operations on the table of commission rates. The readers into a vector take, besides the arguments of the source,
-- what the uninitialised local `CommissionRateInfoField field` holds.
use vs2017code.Base.{
  zero, suc, pos, negsuc, take, Option, none, some, ◌&&◌, if◌then◌else◌, Bytes, codes, Bool, true,
  false, List,
}
use vs2017code.Dblayer.Platform.{Platform, M, return, catch_all, ◌>>=◌, ◌>>◌}
use vs2017code.Dblayer.RecordSet.{Record, execute_sql, new_record_set}
use vs2017code.Dblayer.CommissionModel.Fields.{CommissionRateModelInfoField}
use vs2017code.Dblayer.CommissionModel.Operations.{get_commission_rate_model_info}
use vs2017code.Dblayer.Tables.{commission_rate_table}
use vs2017code.Dblayer.Operation.{run_update, ensure_connected}
use vs2017code.Dblayer.Statement.{replace_into, select_where, select_all, equals, read_rows}
use vs2017code.Dblayer.Single.{query_one, query_rows_some}
use vs2017code.Dblayer.CommissionRate.Fields.{CommissionRateInfoField, commission_rate_cells}
use vs2017code.Dblayer.CommissionRate.Reader.{read_commission_rate}

module _ {p : Platform} where
  unfoldable pub upd_commission_rate_info : CommissionRateInfoField p → M p Bool
  upd_commission_rate_info rate =
      run_update (replace_into commission_rate_table (commission_rate_cells rate))

  -- What the model does to a rate, if it was found: a factor, and then a summand.
  unfoldable pub scale_by_money :
      Bool × CommissionRateModelInfoField p → CommissionRateInfoField p → CommissionRateInfoField p
  scale_by_money (found, model) rate =
      let base : p.Double = model.base_on_basics_by_money in
      if found && p.greater base p.double_one
      then record rate {
        open_ratio_by_money = p.times rate.open_ratio_by_money base;
        open_ratio_by_volume = p.times rate.open_ratio_by_volume base;
        close_ratio_by_money = p.times rate.close_ratio_by_money base;
        close_ratio_by_volume = p.times rate.close_ratio_by_volume base;
        close_today_ratio_by_money = p.times rate.close_today_ratio_by_money base;
        close_today_ratio_by_volume = p.times rate.close_today_ratio_by_volume base;
      }
      else rate

  unfoldable pub add_by_volume :
      Bool × CommissionRateModelInfoField p → CommissionRateInfoField p → CommissionRateInfoField p
  add_by_volume (found, model) rate =
      let base : p.Double = model.base_on_basics_by_volume in
      if found && p.greater base p.double_zero
      then record rate {
        open_ratio_by_volume = p.plus rate.open_ratio_by_volume base;
        close_ratio_by_volume = p.plus rate.close_ratio_by_volume base;
        close_today_ratio_by_volume = p.plus rate.close_today_ratio_by_volume base;
      }
      else rate

  unfoldable pub scale_commission_rate :
      Bool × CommissionRateModelInfoField p → CommissionRateInfoField p → CommissionRateInfoField p
  unfolding scale_by_money add_by_volume
  scale_commission_rate found rate = add_by_volume found (scale_by_money found rate)

  -- The model is assigned before the columns.
  unfoldable pub read_commission_rate_of :
      p.Int → CommissionRateInfoField p → Record → Option (CommissionRateInfoField p)
  unfolding read_commission_rate
  read_commission_rate_of model_id field row =
      read_commission_rate (record field { commission_rate_model_id = model_id }) row

  -- `model` is what the uninitialised struct of the model holds.
  unfoldable pub get_commission_rate_info :
      CommissionRateInfoField p
      → CommissionRateModelInfoField p
      → p.Int
      → Bytes
      → M p (Bool × CommissionRateInfoField p)
  unfolding scale_commission_rate read_commission_rate_of
  get_commission_rate_info field model model_id instrument_id = do
    result ←
        query_one (read_commission_rate_of model_id) field
          (select_where commission_rate_table (equals (codes "InstrumentID") instrument_id))
    elim result.0 [
      | false ↦ return result
      | true ↦ do
        found ← get_commission_rate_model_info model model_id
        return (true, scale_commission_rate found result.1)
    ]

  unfoldable pub read_scaled :
      Bool × CommissionRateModelInfoField p
      → p.Int
      → CommissionRateInfoField p
      → Record
      → Option (CommissionRateInfoField p)
  unfolding scale_commission_rate read_commission_rate_of
  read_scaled found model_id field row = elim (read_commission_rate_of model_id field row) [
    | none ↦ none
    | some rate ↦ some (scale_commission_rate found rate)
  ]

  -- The query for the model stands between the query for the rows and their loop.
  unfoldable pub get_commission_rates_of_model :
      CommissionRateInfoField p
      → CommissionRateModelInfoField p
      → List (CommissionRateInfoField p)
      → p.Int
      → M p (Bool × List (CommissionRateInfoField p))
  unfolding execute_sql read_scaled
  get_commission_rates_of_model field model vec model_id =
      catch_all (false, vec)
        (do
          ensure_connected
          answer ← execute_sql new_record_set (select_all commission_rate_table)
          elim answer.0 [
            | negsuc n ↦ return (false, vec)
            | pos count ↦ elim count [
              | zero ↦ return (false, vec)
              | suc more ↦ do
                found ← get_commission_rate_model_info model model_id
                read_rows (read_scaled found model_id) field (take (suc more) answer.1.rows) vec
            ]
          ])

  unfoldable pub get_all_commission_rate_info :
      CommissionRateInfoField p
      → List (CommissionRateInfoField p)
      → M p (Bool × List (CommissionRateInfoField p))
  get_all_commission_rate_info field vec =
      query_rows_some read_commission_rate field (select_all commission_rate_table) vec
