-- ===== src/Database.antt =====
-- internal/database: the connection that the repositories work on. gorm's driver and the handle of
-- database/sql below it are parameters.
use chef_infra.Base.{ℕ, String, Bool, true}
use chef_infra.Base.Exec.{Exec, pure, ◌>>=◌}
use chef_infra.Config.{DatabaseConfig, data_source}

-- The settings of gorm's logger; the threshold is in nanoseconds.
pub record LoggerConfig : Type 0 where
  pub slow_threshold : ℕ
  pub log_level : String
  pub ignore_record_not_found_error : Bool
  pub colorful : Bool

abbrev pub logger_config : LoggerConfig
logger_config = record {
  slow_threshold = 1000000000;
  log_level = "info";
  ignore_record_not_found_error = true;
  colorful = true;
}

-- `gorm.Open` with the postgres driver, `DB` of a connection, and `Close` of what that returns.
pub record Driver (W : Type 0) : Type 1 where
  pub Connection : Type 0
  pub Handle : Type 0
  pub open_postgres : String → LoggerConfig → Exec String W Connection
  pub sql_db : Connection → Exec String W Handle
  pub close : Handle → Exec String W (Unit {0})

module _ {W : Type 0} (D : Driver W) where
  pub record Manager : Type 0 where
    pub db : D.Connection
    pub config : DatabaseConfig

  unfoldable pub new_database : DatabaseConfig → Exec String W D.Connection
  new_database config = D.open_postgres (data_source config) logger_config

  unfoldable pub new_manager : DatabaseConfig → Exec String W Manager
  new_manager config = do db ← new_database config; pure (record { db = db; config = config })

  -- `OnStop` of module.go.
  unfoldable pub close_manager : Manager → Exec String W (Unit {0})
  close_manager manager = do handle ← D.sql_db manager.db; D.close handle
