-- ===== src/Dblayer/MarginRate/Laws.antt =====
-- The margin rate of an instrument, with the factor of a model.
use vs2017code.Base.{
  ℕ, ◌^◌, ◌<◌, ◌≡◌, refl, ◌∙◌, Bytes, codes, true, false, List, ◌∷◌, map, Option, some, length,
  c_string,
}
use vs2017code.Dblayer.Platform.{Platform, ConversionsRoundTrip, result_set, Session, ok}
use vs2017code.Dblayer.Tables
use vs2017code.Dblayer.RecordSet.{cell_text}
use vs2017code.Dblayer.Operation.{ensure_connected}
use vs2017code.Dblayer.Statement.{select_where, equals}
use vs2017code.Dblayer.Single.{query_one_found}
use vs2017code.Dblayer.MarginModel.Fields.{MarginRateModelInfoField}
use vs2017code.Dblayer.MarginModel.Reader.{read_margin_rate_model}
use vs2017code.Dblayer.MarginModel.Operations.{get_margin_rate_model_info}
use vs2017code.Dblayer.MarginRate.Fields.{MarginRateInfoField, margin_rate_cells}
use vs2017code.Dblayer.MarginRate.Reader.{read_margin_rate}
use vs2017code.Dblayer.MarginRate.Operations.{
  get_margin_rate_info, read_margin_rate_of, scale_margin_rate,
}

-- The 8 columns that are written are read back; the model is not among them.
pub read_margin_rate_of-margin_rate_cells :
    {p : Platform} (laws : ConversionsRoundTrip p) (model_id : p.Int)
    (field rate : MarginRateInfoField p)
    → read_margin_rate_of model_id field (margin_rate_cells rate)
      ≡ some (record rate { margin_rate_model_id = model_id })
unfolding read_margin_rate_of read_margin_rate margin_rate_cells
read_margin_rate_of-margin_rate_cells laws model_id field rate =
    simp (laws.to_int-print_int, laws.to_double-print_double)

-- A rate with its four ratios multiplied.
abbrev pub with_factor : {p : Platform} → p.Double → MarginRateInfoField p → MarginRateInfoField p
with_factor {p} base rate = record rate {
  long_margin_ratio_by_money = p.times rate.long_margin_ratio_by_money base;
  long_margin_ratio_by_volume = p.times rate.long_margin_ratio_by_volume base;
  short_margin_ratio_by_money = p.times rate.short_margin_ratio_by_money base;
  short_margin_ratio_by_volume = p.times rate.short_margin_ratio_by_volume base;
}

module _ {p : Platform} (laws : ConversionsRoundTrip p) (field stored : MarginRateInfoField p)
    (model found : MarginRateModelInfoField p) (model_id : p.Int) (instrument_id : Bytes)
    (s t u : Session p) (fields fields' : List (Bytes × ℕ)) (raw raw' : List (Option Bytes))
    (raws raws' : List (List (Option Bytes))) (middle server : p.Server)
    (checked : ensure_connected s ≡ (ok tt, t))
    (answered : p.real_query t.server (
        c_string
          (select_where Tables.margin_rate_table (equals (codes "InstrumentID") instrument_id)))
      ≡ (result_set fields (raw ∷ raws), middle))
    (few : length (raw ∷ raws) < 2 ^ 31) (row_stored : map cell_text raw ≡ margin_rate_cells stored)
    (checked' : ensure_connected (record t { server = middle }) ≡ (ok tt, u))
    (answered' : p.real_query u.server (
        c_string (
          select_where Tables.margin_rate_model_table
            (equals (codes "MarginRateModelID") (p.print_int model_id))))
      ≡ (result_set fields' (raw' ∷ raws'), server))
    (few' : length (raw' ∷ raws') < 2 ^ 31)
    (row_read : read_margin_rate_model model (map cell_text raw') ≡ some found) where
  abbrev numbered : MarginRateInfoField p
  numbered = record stored { margin_rate_model_id = model_id }

  get_margin_rate_info_found :
      get_margin_rate_info field model model_id instrument_id s
      ≡ (ok (true, scale_margin_rate (true, found) numbered), record u { server = server })
  unfolding get_margin_rate_info get_margin_rate_model_info
  get_margin_rate_info_found =
      let read_rate : read_margin_rate_of model_id field (map cell_text raw) ≡ some numbered =
        rw row_stored (read_margin_rate_of-margin_rate_cells laws model_id field stored) in
      rw
        (
          query_one_found (read_margin_rate_of model_id) field _ s t middle fields raw raws numbered
              checked answered few read_rate,
          query_one_found read_margin_rate_model model _ (record t { server = middle }) u server
              fields' raw' raws' found checked' answered' few' row_read,
        )
        refl

  -- GetMarginRateInfo of a model and an instrument, when both checks of the connection pass and the
  -- server answers the first query with the row of a stored rate first and the second with that of the
  -- model, both with fewer than 2^31 rows, returns true and the stored rate with the model's number:
  -- with its four ratios multiplied by the model's base_on_basics if that is greater than 1.0, and with
  -- the ratios as stored if not. The decimal text of a number is read back.
  pub get_margin_rate_info_scaled :
      (p.greater found.base_on_basics p.double_one ≡ true
        → get_margin_rate_info field model model_id instrument_id s
          ≡ (ok (true, with_factor found.base_on_basics numbered), record u { server = server }))
      × (p.greater found.base_on_basics p.double_one ≡ false
          → get_margin_rate_info field model model_id instrument_id s
            ≡ (ok (true, numbered), record u { server = server }))
  unfolding scale_margin_rate
  get_margin_rate_info_scaled = (
    (λ more. get_margin_rate_info_found ∙ rw (scale_margin_rate, more) refl),
    λ less. get_margin_rate_info_found ∙ rw (scale_margin_rate, less) refl,
  )
