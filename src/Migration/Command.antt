-- ===== src/Migration/Command.antt =====
-- cmd/migrate/main.go with the parts of internal/migration/migrate.go that only it calls. A fatal
-- log ends the process at once, so that its line is the error of a run, which skips the deferred
-- close.
pub mod Outcomes
use chef_infra.Base.{ℕ, String, ◌<>◌, ◌==◌, decimal, Option, some, none, if◌then◌else◌}
use chef_infra.Base.Result.{Result, ok, err}
use chef_infra.Base.Exec.{Exec, pure, raise, lift, attempt, ◌>>=◌, ◌>>◌}
use chef_infra.Config.{DatabaseConfig, data_source}
use chef_infra.Server.Loading.{Viper, load_config}
use chef_infra.Migration.Outside.{FilePath, Host}
use chef_infra.Migration.{wrap, get_migrations_dir, up, down, reset}

-- What the command calls beside the start hook: database/sql and `goose.Status`.
pub record Connection (H : Host) : Type 0 where
  -- With the driver and the data source.
  pub sql_open : String → String → Exec String H.State (Unit {0})
  pub close : Exec String H.State (Unit {0})
  pub status : FilePath → Exec String H.State (Unit {0})

module _ (H : Host) (D : Connection H) where
  open H use {State}

  unfoldable pub new_migrator : DatabaseConfig → Exec String State (Unit {0})
  new_migrator config =
      wrap "failed to connect to database" (D.sql_open "postgres" (data_source config))

  unfoldable pub status : Exec String State (Unit {0})
  status = do
    dir ← wrap "failed to get migrations directory" (lift (get_migrations_dir H))
    wrap "failed to get migration status" (D.status dir)

  unfoldable pub version : Exec String State ℕ
  version = H.get_db_version

  unfoldable pub close : Exec String State (Unit {0})
  close = D.close

  -- The line that a command logs at its end, if it logs one.
  unfoldable pub run_command : String → Exec String State (Option String)
  run_command command =
      if command == "up"
      then (do wrap "Failed to run migrations" (up H); pure (some "Successfully ran migrations"))
      else if command == "down"
      then (do
        wrap "Failed to rollback migrations" (down H)
        pure (some "Successfully rolled back migrations"))
      else if command == "status"
      then (do wrap "Failed to get migration status" status; pure none)
      else if command == "version"
      then (do
        v ← wrap "Failed to get migration version" version
        pure (some ("Current migration version: " <> decimal v)))
      else if command == "reset"
      then (do
        wrap "Failed to reset migrations" (reset H)
        pure (some "Successfully reset migrations"))
      else raise ("Unknown command: " <> command)

  -- With the command line's flag and `os.Getenv("APP_ENV")`.
  unfoldable pub main : Viper State → String → String → Exec String State (Option String)
  main viper command env = do
    config ←
        wrap "Failed to load config" (load_config viper (if env == "" then "development" else env))
    wrap "Failed to create migrator" (new_migrator config.database)
    line ← run_command command
    _ ← attempt close
    pure line
