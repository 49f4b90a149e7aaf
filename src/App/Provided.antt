-- ===== src/App/Provided.antt =====
-- What internal/app/module.go provides, and how cmd/chef-infra/main.go brings it up. fx calls a
-- constructor once, when a hook or another constructor needs what it makes: first the logger, for
-- fx's own log, then the configuration, the database and the migrator. The other constructors only
-- pass on what they are given.
use chef_infra.Base.{ℕ, ◌≡◌, refl, String, ◌==◌, List, if◌then◌else◌}
use chef_infra.Base.Result.{Result}
use chef_infra.Base.Exec.{Exec, pure, lift, ◌>>=◌, ◌>>◌}
use chef_infra.Config.{AppConfig}
use chef_infra.Database.{Manager, new_manager}
use chef_infra.Auth.Gorm.{Gorm, gorm_repository}
use chef_infra.Auth.Wiring.{
  Handler, AuthMiddleware, new_service, new_handler, new_auth_middleware, new_module,
}
use chef_infra.Server.Loading.{Viper, EncoderConfig, ZapConfig, load_config, new_logger}
use chef_infra.Migration.Command.{new_migrator}
use chef_infra.App.{Hook, Environment, hooks}

-- What the constructors take from viper and zap, and the queries of gorm on a connection.
pub record Outside (E : Environment) : Type 1 where
  pub viper : Viper E.host.State
  pub Logger : Type 0
  pub new_development_encoder_config : EncoderConfig
  pub new_production_config : ZapConfig
  pub build_logger : ZapConfig → Result String Logger
  pub gorm : E.driver.Connection → Gorm

-- `Params` of internal/server/server.go.
pub record Params : Type 1 where
  pub config : AppConfig
  pub auth_handler : Handler
  pub auth_middleware : AuthMiddleware

module _ (E : Environment) (O : Outside E) where
  open E use {host, connection, driver}

  pub record Built : Type 0 where
    pub config : AppConfig
    pub manager : Manager driver

  -- The three constructors under "Auth Module", with the `DB` of the manager.
  abbrev pub provided : Built → Params
  provided built =
      let service = new_service built.config.auth (gorm_repository (O.gorm built.manager.db)) in
      record {
        config = built.config;
        auth_handler = new_handler service;
        auth_middleware = new_auth_middleware built.config.auth;
      }

  -- The handler and the middleware are those that `NewModule` of internal/auth makes for the same
  -- database.
  provided-new_module :
      (built : Built)
      → let parts = new_module (O.gorm built.manager.db) built.config in
        ((provided built).auth_handler ≡ parts.handler)
        × ((provided built).auth_middleware ≡ parts.middleware)
  provided-new_module built = (refl, refl)

  -- `newLogger`, with `os.Getenv("APP_ENV")`.
  unfoldable pub app_logger : String → Exec String host.State O.Logger
  app_logger env =
      lift (new_logger O.new_development_encoder_config O.new_production_config O.build_logger env)

  unfoldable pub build : String → Exec String host.State Built
  build env = do
    app_logger env
    config ← load_config O.viper env
    manager ← new_manager driver config.database
    new_migrator host connection config.database
    pure (record { config = config; manager = manager })

  -- `main`, with `os.Getenv("APP_ENV")`, up to the wait of `app.Run` for a signal; the argument
  -- before it runs the hooks. A panic is an error.
  unfoldable pub main :
      ℕ
      → (List (Hook host.State) → Exec String host.State (Unit {0}))
      → String
      → Exec String host.State (Unit {0})
  main fuel run_start env = do
    app_logger (if env == "" then "development" else env)
    built ← build (if env == "" then "development" else env)
    run_start (hooks E fuel built.manager built.config)
