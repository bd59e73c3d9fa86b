-- ===== src/Dblayer/DailyFlag/Laws.antt =====
-- What is written to the table of daily settlements is what is read from it.
use vs2017code.Base.{
  ℕ, ◌^◌, ◌<◌, ◌≡◌, Bytes, codes, List, ◌∷◌, ◌++◌, map, Option, some, length, c_string, pos,
}
use vs2017code.Dblayer.Platform.{Platform, ConversionsRoundTrip, result_set, Session, ok}
use vs2017code.Dblayer.Tables
use vs2017code.Dblayer.RecordSet.{cell_text}
use vs2017code.Dblayer.Operation.{ensure_connected}
use vs2017code.Dblayer.Single.{query_row_found}
use vs2017code.Dblayer.DailyFlag.Operations.{get_last_daily_settlement_flag}
use vs2017code.Dblayer.DailyFlag.Fields.{DailySettlementFlagField, daily_settlement_flag_cells}
use vs2017code.Dblayer.DailyFlag.Reader.{read_daily_settlement_flag}

-- Each of the 10 columns that are written is read into the field that it was written from.
pub read_daily_settlement_flag-daily_settlement_flag_cells :
    {p : Platform} (laws : ConversionsRoundTrip p) (field flag : DailySettlementFlagField p)
    → read_daily_settlement_flag field (daily_settlement_flag_cells flag) ≡ some flag
unfolding read_daily_settlement_flag daily_settlement_flag_cells
read_daily_settlement_flag-daily_settlement_flag_cells laws field flag =
    simp (laws.to_int-print_int)

-- GetLastDailySettlementFlag, when the check of the connection passes and the server answers its
-- query with rows of which the first is that of a flag, returns 1 and fills in exactly this flag.
pub get_last_daily_settlement_flag_stored :
    {p : Platform} (laws : ConversionsRoundTrip p) (field stored : DailySettlementFlagField p)
    (s t : Session p) (fields : List (Bytes × ℕ)) (raw : List (Option Bytes))
    (raws : List (List (Option Bytes))) (server : p.Server)
    → ensure_connected s ≡ (ok tt, t)
    → p.real_query t.server (
        c_string (
          codes "SELECT * FROM `"
          ++ (Tables.daily_settlement_flag_table ++ codes "` order by id desc limit 1;")))
      ≡ (result_set fields (raw ∷ raws), server)
    → length (raw ∷ raws) < 2 ^ 31
    → map cell_text raw ≡ daily_settlement_flag_cells stored
    → get_last_daily_settlement_flag field s ≡ (ok (pos 1, stored), record t { server = server })
unfolding get_last_daily_settlement_flag
get_last_daily_settlement_flag_stored laws field stored s t fields raw raws server c q size same =
    query_row_found read_daily_settlement_flag field _ s t server _ fields raw raws stored c q size
      (rw same (read_daily_settlement_flag-daily_settlement_flag_cells laws field stored))
