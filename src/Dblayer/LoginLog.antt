-- ===== src/Dblayer/LoginLog.antt =====
-- The log of logins of dblayer/src/mysql/DBOperation.cpp; the insertion by a prepared statement is
-- left out. The struct is declared in pbserdes/ETPTypes.h, outside the repository.
use vs2017code.Base.{Bytes, codes, Bool, List, [], ◌∷◌, ◌++◌, if◌then◌else◌, is_minus_one}
use vs2017code.Dblayer.Platform.{Platform, M, return, throw, ◌>>=◌, ◌>>◌}
use vs2017code.Dblayer.Database.{exec_query}
use vs2017code.Dblayer.Operation.{run_update, ensure_connected}
use vs2017code.Dblayer.Statement.{quoted_values}
use vs2017code.Dblayer.Tables.{user_login_log_table}

pub record LoginLogField (p : Platform) : Type 0 where
  pub user_id : Bytes
  pub broker_id : Bytes
  pub login_time : Bytes
  pub ip : Bytes
  pub port : p.Int
  pub mac : Bytes
  pub comment : Bytes

abbrev pub login_log_columns : Bytes
login_log_columns =
    codes "`UserID` varchar(10) NOT NULL,"
    ++ (codes "`BrokerID` varchar(20),"
        ++ (codes "`LoginTime` varchar(20),"
            ++ (codes "`Ip` varchar(20),"
                ++ (codes "`Port` int,"
                    ++ (codes "`Mac` varchar(20),"
                        ++ (codes "`Comment` varchar(50),"
                            ++ (codes "PRIMARY KEY (`Index`),"
                                ++ (codes "INDEX " ++ codes "USER_INDEX (UserID(10))"))))))))

module _ {p : Platform} where
  unfoldable pub create_login_log_table : M p (Unit {0})
  create_login_log_table = do
    ensure_connected
    count ← exec_query (
        codes "CREATE TABLE IF NOT EXISTS `"
        ++ (user_login_log_table
            ++ (codes "` ("
                ++ (login_log_columns ++ codes ")ENGINE=InnoDB DEFAULT CHARSET=gb2312;"))))
    if is_minus_one count then throw else return tt

  unfoldable pub login_log_cells : LoginLogField p → List Bytes
  login_log_cells log =
      log.user_id
      ∷ log.broker_id
      ∷ log.login_time
      ∷ log.ip
      ∷ p.print_int log.port
      ∷ log.mac
      ∷ log.comment
      ∷ []

  unfoldable pub insert_login_log : LoginLogField p → M p Bool
  unfolding login_log_cells
  insert_login_log log = run_update (
      codes "INSERT INTO `"
      ++ (user_login_log_table
          ++ (codes "` VALUES ( \"" ++ (quoted_values (login_log_cells log) ++ codes "\" );"))))
