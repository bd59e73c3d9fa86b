-- ===== src/Dblayer/Position/Operations.antt =====
-- The operations on the position tables. The readers into a vector take, besides the arguments of the
-- source, what the uninitialised local `InvestorPositionField field` holds.
use vs2017code.Base.{Bytes, codes, Bool, List, [], ◌∷◌}
use vs2017code.Dblayer.Platform.{Platform, M}
use vs2017code.Dblayer.Tables.{position_table, his_position_table}
use vs2017code.Dblayer.Operation.{run_update}
use vs2017code.Dblayer.Statement.{
  replace_into, select_where, select_all, delete_where, equals, ◌and◌, of_investor,
}
use vs2017code.Dblayer.Single.{query_rows_some, query_one}
use vs2017code.Dblayer.Position.Fields.{InvestorPositionField, position_cells}
use vs2017code.Dblayer.Position.Reader.{read_position}

module _ {p : Platform} where
  unfoldable pub upd_position : InvestorPositionField p → M p Bool
  upd_position position = run_update (replace_into position_table (position_cells position))

  unfoldable pub del_position : InvestorPositionField p → M p Bool
  del_position position = run_update (
      delete_where position_table (
        equals (codes "TradingDay") position.trading_day
        and equals (codes "BrokerID") position.broker_id
        and equals (codes "InvestorID") position.investor_id
        and equals (codes "InstrumentID") position.instrument_id
        and equals (codes "PosiDirection") (position.posi_direction ∷ [])
        and equals (codes "HedgeFlag") (position.hedge_flag ∷ [])))

  unfoldable pub del_zero_positions : M p Bool
  del_zero_positions =
      run_update (delete_where position_table (equals (codes "Position") (codes "0")))

  unfoldable pub get_positions :
      InvestorPositionField p
      → List (InvestorPositionField p)
      → Bytes
      → Bytes
      → M p (Bool × List (InvestorPositionField p))
  get_positions field positions broker_id investor_id =
      query_rows_some read_position field
        (select_where position_table (of_investor broker_id investor_id)) positions

  unfoldable pub get_all_positions :
      InvestorPositionField p
      → List (InvestorPositionField p)
      → M p (Bool × List (InvestorPositionField p))
  get_all_positions field positions =
      query_rows_some read_position field (select_all position_table) positions

  unfoldable pub get_position :
      InvestorPositionField p → Bytes → Bytes → Bytes → Bytes → M p (Bool × InvestorPositionField p)
  get_position field broker_id investor_id instrument_id posi_direction =
      query_one read_position field (
        select_where position_table (
          of_investor broker_id investor_id
          and equals (codes "InstrumentID") instrument_id
          and equals (codes "PosiDirection") posi_direction))

  unfoldable pub get_position_of_instrument :
      InvestorPositionField p
      → List (InvestorPositionField p)
      → Bytes
      → M p (Bool × List (InvestorPositionField p))
  get_position_of_instrument field positions instrument_id =
      query_rows_some read_position field
        (select_where position_table (equals (codes "InstrumentID") instrument_id)) positions

  unfoldable pub del_investor_position : Bytes → Bytes → M p Bool
  del_investor_position broker_id investor_id =
      run_update (delete_where position_table (of_investor broker_id investor_id))

  unfoldable pub upd_his_position : InvestorPositionField p → M p Bool
  upd_his_position position = run_update (replace_into his_position_table (position_cells position))

  unfoldable pub get_his_positions :
      InvestorPositionField p
      → List (InvestorPositionField p)
      → Bytes
      → Bytes
      → M p (Bool × List (InvestorPositionField p))
  get_his_positions field positions broker_id investor_id =
      query_rows_some read_position field
        (select_where his_position_table (of_investor broker_id investor_id)) positions

  unfoldable pub get_all_his_positions :
      InvestorPositionField p
      → List (InvestorPositionField p)
      → M p (Bool × List (InvestorPositionField p))
  get_all_his_positions field positions =
      query_rows_some read_position field (select_all his_position_table) positions

  unfoldable pub del_investor_his_position : Bytes → Bytes → M p Bool
  del_investor_his_position broker_id investor_id =
      run_update (delete_where his_position_table (of_investor broker_id investor_id))
