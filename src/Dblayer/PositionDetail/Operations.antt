-- ===== src/Dblayer/PositionDetail/Operations.antt =====
-- The operations on the table of position details. The readers into a vector take, besides the arguments of the source,
-- what the uninitialised local `InvestorPositionDetailField field` holds.
use vs2017code.Base.{Bytes, codes, Bool, List, [], ◌∷◌}
use vs2017code.Dblayer.Platform.{Platform, M}
use vs2017code.Dblayer.Tables.{position_detail_table}
use vs2017code.Dblayer.Operation.{run_update}
use vs2017code.Dblayer.Statement.{
  replace_into, select_where, delete_where, equals, ◌and◌, of_investor,
}
use vs2017code.Dblayer.Single.{query_rows_some}
use vs2017code.Dblayer.PositionDetail.Fields.{InvestorPositionDetailField, position_detail_cells}
use vs2017code.Dblayer.PositionDetail.Reader.{read_position_detail}

module _ {p : Platform} where
  unfoldable pub upd_position_detail : InvestorPositionDetailField p → M p Bool
  upd_position_detail detail =
      run_update (replace_into position_detail_table (position_detail_cells detail))

  unfoldable pub del_position_detail : InvestorPositionDetailField p → M p Bool
  del_position_detail detail = run_update (
      delete_where position_detail_table (
        of_investor detail.broker_id detail.investor_id
        and equals (codes "InstrumentID") detail.instrument_id
        and equals (codes "Direction") (detail.direction ∷ [])
        and equals (codes "HedgeFlag") (detail.hedge_flag ∷ [])
        and equals (codes "OpenDate") detail.open_date
        and equals (codes "TradeID") detail.trade_id))

  unfoldable pub del_zero_position_details : M p Bool
  del_zero_position_details =
      run_update (delete_where position_detail_table (equals (codes "Volume") (codes "0")))

  unfoldable pub get_position_details :
      InvestorPositionDetailField p
      → List (InvestorPositionDetailField p)
      → Bytes
      → Bytes
      → M p (Bool × List (InvestorPositionDetailField p))
  get_position_details field vec broker_id investor_id =
      query_rows_some read_position_detail field
        (select_where position_detail_table (of_investor broker_id investor_id)) vec

  unfoldable pub get_position_details_of_instrument :
      InvestorPositionDetailField p
      → List (InvestorPositionDetailField p)
      → Bytes
      → Bytes
      → Bytes
      → M p (Bool × List (InvestorPositionDetailField p))
  get_position_details_of_instrument field vec broker_id investor_id instrument_id =
      query_rows_some read_position_detail field
        (select_where position_detail_table
          (of_investor broker_id investor_id and equals (codes "InstrumentID") instrument_id))
        vec

  unfoldable pub get_position_details_of_direction :
      InvestorPositionDetailField p
      → List (InvestorPositionDetailField p)
      → Bytes
      → Bytes
      → Bytes
      → Bytes
      → M p (Bool × List (InvestorPositionDetailField p))
  get_position_details_of_direction field vec broker_id investor_id instrument_id direction =
      query_rows_some read_position_detail field
        (select_where position_detail_table (
          of_investor broker_id investor_id
          and equals (codes "InstrumentID") instrument_id
          and equals (codes "Direction") direction))
        vec

  unfoldable pub get_all_position_details_of_instrument :
      InvestorPositionDetailField p
      → List (InvestorPositionDetailField p)
      → Bytes
      → M p (Bool × List (InvestorPositionDetailField p))
  get_all_position_details_of_instrument field vec instrument_id =
      query_rows_some read_position_detail field
        (select_where position_detail_table (equals (codes "InstrumentID") instrument_id)) vec

  unfoldable pub del_investor_position_details : Bytes → Bytes → M p Bool
  del_investor_position_details broker_id investor_id =
      run_update (delete_where position_detail_table (of_investor broker_id investor_id))
