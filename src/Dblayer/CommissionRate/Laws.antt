-- ===== src/Dblayer/CommissionRate/Laws.antt =====
-- The commission rate of an instrument, with what a model adds to it.
use vs2017code.Base.{
  ℕ, ◌^◌, ◌<◌, ◌≡◌, refl, Bytes, codes, true, List, ◌∷◌, map, Option, some, length, c_string,
}
use vs2017code.Dblayer.Platform.{Platform, ConversionsRoundTrip, result_set, Session, ok}
use vs2017code.Dblayer.Tables
use vs2017code.Dblayer.RecordSet.{cell_text}
use vs2017code.Dblayer.Operation.{ensure_connected}
use vs2017code.Dblayer.Statement.{select_where, equals}
use vs2017code.Dblayer.Single.{query_one_found}
use vs2017code.Dblayer.CommissionModel.Fields.{CommissionRateModelInfoField}
use vs2017code.Dblayer.CommissionModel.Reader.{read_commission_rate_model}
use vs2017code.Dblayer.CommissionModel.Operations.{get_commission_rate_model_info}
use vs2017code.Dblayer.CommissionRate.Fields.{CommissionRateInfoField, commission_rate_cells}
use vs2017code.Dblayer.CommissionRate.Reader.{read_commission_rate}
use vs2017code.Dblayer.CommissionRate.Operations.{
  get_commission_rate_info, read_commission_rate_of, scale_commission_rate,
}

-- The 8 columns that are written are read back; the model is not among them.
pub read_commission_rate_of-commission_rate_cells :
    {p : Platform} (laws : ConversionsRoundTrip p) (model_id : p.Int)
    (field rate : CommissionRateInfoField p)
    → read_commission_rate_of model_id field (commission_rate_cells rate)
      ≡ some (record rate { commission_rate_model_id = model_id })
unfolding read_commission_rate_of read_commission_rate commission_rate_cells
read_commission_rate_of-commission_rate_cells laws model_id field rate =
    simp (laws.to_double-print_double)

-- GetCommissionRateInfo of a model and an instrument, when both checks of the connection pass and the
-- server answers the first query with the row of a stored rate first and the second with that of the
-- model, returns true and the stored rate with the model's number, factor and summand.
pub get_commission_rate_info_scaled :
    {p : Platform} (laws : ConversionsRoundTrip p) (field stored : CommissionRateInfoField p)
    (model found : CommissionRateModelInfoField p) (model_id : p.Int) (instrument_id : Bytes)
    (s t u : Session p) (fields fields' : List (Bytes × ℕ)) (raw raw' : List (Option Bytes))
    (raws raws' : List (List (Option Bytes))) (middle server : p.Server)
    → ensure_connected s ≡ (ok tt, t)
    → p.real_query t.server (
        c_string
          (select_where Tables.commission_rate_table (equals (codes "InstrumentID") instrument_id)))
      ≡ (result_set fields (raw ∷ raws), middle)
    → length (raw ∷ raws) < 2 ^ 31
    → map cell_text raw ≡ commission_rate_cells stored
    → ensure_connected (record t { server = middle }) ≡ (ok tt, u)
    → p.real_query u.server (
        c_string (
          select_where Tables.commission_rate_model_table
            (equals (codes "CommissionRateModelID") (p.print_int model_id))))
      ≡ (result_set fields' (raw' ∷ raws'), server)
    → length (raw' ∷ raws') < 2 ^ 31
    → read_commission_rate_model model (map cell_text raw') ≡ some found
    → get_commission_rate_info field model model_id instrument_id s ≡ (
      ok (
        true,
        scale_commission_rate (true, found) (record stored { commission_rate_model_id = model_id }),
      ),
      record u { server = server },
    )
unfolding get_commission_rate_info get_commission_rate_model_info
get_commission_rate_info_scaled laws field stored model found model_id instrument_id s t u fields
      fields' raw raw' raws raws' middle server c q size same c' q' size' read_model =
    let rate : CommissionRateInfoField _ = record stored { commission_rate_model_id = model_id } in
    let read_rate : read_commission_rate_of model_id field (map cell_text raw) ≡ some rate =
      rw same (read_commission_rate_of-commission_rate_cells laws model_id field stored) in
    rw
      (
        query_one_found (read_commission_rate_of model_id) field _ s t middle fields raw raws rate c
            q size read_rate,
        query_one_found read_commission_rate_model model _ (record t { server = middle }) u server
            fields' raw' raws' found c' q' size' read_model,
      )
      refl
