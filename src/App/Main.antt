-- ===== src/App/Main.antt =====
-- What cmd/chef-infra/main.go has done where it comes up without an error.
use chef_infra.Base.{ℕ, ◌<◌, String, ◌≡◌, inl, inr, arith, List, ap}
use chef_infra.Base.Result.{ok, Result-cases}
use chef_infra.Base.Exec.{Exec}
use chef_infra.Config.{data_source}
use chef_infra.Database.{logger_config, new_manager, new_database}
use chef_infra.Server.Lifecycle.{start}
use chef_infra.Server.Loading.{load_config, environment}
use chef_infra.Migration.Outside.{FilePath}
use chef_infra.Migration.DownTo.{IsGoose}
use chef_infra.Migration.Hook.{ReadsFiles}
use chef_infra.Migration.Command.{new_migrator}
use chef_infra.Migration.{last_version, get_migrations_dir}
use chef_infra.App.{Hook, Environment, hooks}
use chef_infra.App.Start.{IsLifecycle, launched, stopped, hooks-Starts}
use chef_infra.App.Provided.{Outside, Built, build, main, app_logger}

module _ (E : Environment) (O : Outside E) where
  open E use {host, connection, driver, net, spawn}

  -- How the parts of an application came about that was built.
  pub record IsBuilt (env : String) (w : host.State) (built : Built E O) (after : host.State)
      : Type 0 where
    pub logger : O.Logger
    pub loaded : host.State
    pub opened : host.State
    pub logs : (app_logger E O env w).0 ≡ ok logger
    pub config : load_config O.viper env w ≡ (ok built.config, loaded)
    pub database :
        driver.open_postgres (data_source built.config.database) logger_config loaded
        ≡ (ok built.manager.db, opened)
    pub migrator : new_migrator host connection built.config.database opened ≡ (ok tt, after)

  build_ok :
      (env : String) (w : host.State) (built : Built E O)
      → (build E O env w).0 ≡ ok built
      → IsBuilt env w built (build E O env w).1
  unfolding build app_logger new_manager new_database
  build_ok env w built h =
      let c = load_config O.viper env w in
      elim (Result-cases (app_logger E O env w).0) [
        | inr (e, failed) ↦ absurd (ground arith)
        | inl (logger, logs) ↦ elim (Result-cases c.0) [
          | inr (e, failed) ↦ absurd (ground arith)
          | inl (config, loads) ↦
              let o = driver.open_postgres (data_source config.database) logger_config c.1 in
              elim (Result-cases o.0) [
                | inr (e, failed) ↦ absurd (ground arith)
                | inl (db, opens) ↦
                    elim (Result-cases (new_migrator host connection config.database o.1).0) [
                      | inr (e, failed) ↦ absurd (ground arith)
                      | inl (_, connects) ↦ record {
                        logger = logger;
                        loaded = c.1;
                        opened = o.1;
                        logs = logs;
                        config = ground arith;
                        database = ground arith;
                        migrator = ground arith;
                      }
                    ]
              ]
        ]
      ]

  module _ (G : IsGoose host) (F : ReadsFiles host G) (dir : FilePath) (versions : List ℕ)
      (at : get_migrations_dir host ≡ ok dir) (files : host.collect_migrations dir ≡ ok versions)
      (run_start : List (Hook host.State) → Exec String host.State (Unit {0}))
      (lifecycle : IsLifecycle run_start) where
    -- How an application came up: its parts are built for the environment, its database is migrated
    -- to the latest version after that, and the server is launched last.
    pub record IsUp (env : String) (w after : host.State) : Type 0 where
      pub built : Built E O
      pub connected : host.State
      pub migrated : host.State
      pub parts : IsBuilt (environment env) w built connected
      pub latest : G.version migrated ≡ last_version versions
      pub served : after ≡ spawn (start net built.config) migrated

    hooks_ok :
        (fuel : ℕ) (built : Built E O) (w : host.State)
        → G.version w < fuel
        → (run_start (hooks E fuel built.manager built.config) w).0 ≡ ok tt
        → (migrated : host.State) × (G.version migrated ≡ last_version versions)
          × ((run_start (hooks E fuel built.manager built.config) w).1
              ≡ spawn (start net built.config) migrated)
    hooks_ok fuel built w enough h =
        elim (hooks-Starts E G F dir versions at files run_start lifecycle fuel built.manager
          built.config w enough) [
            | launched migrated returns latest answer ↦ (migrated, latest, ap (λ r. r.1) answer)
            | stopped e after returns more failed ↦ absurd (cc (h, ap (λ r. r.0) failed))
          ]

    -- With fx's, goose's and the migration files' documented behaviour, and fuel above the version
    -- of the database that the application connects to, a `main` that reports no error has built
    -- the parts for the environment that `APP_ENV` names, or else for development, has brought the
    -- database to the latest version, and has then launched the server with the configuration read.
    pub main-IsUp :
        (fuel : ℕ) (env : String) (w : host.State)
        → G.version (build E O (environment env) w).1 < fuel
        → (main E O fuel run_start env w).0 ≡ ok tt
        → IsUp env w (main E O fuel run_start env w).1
    unfolding main environment app_logger
    main-IsUp fuel env w enough h =
        let b = build E O (environment env) w in
        elim (Result-cases (app_logger E O (environment env) w).0) [
          | inr (e, failed) ↦ absurd (ground arith)
          | inl (logger, logs) ↦ elim (Result-cases b.0) [
            | inr (e, failed) ↦ absurd (ground arith)
            | inl (built, done) ↦
                let (migrated, latest, served) = hooks_ok fuel built b.1 enough (ground arith) in
                record {
                  built = built;
                  connected = b.1;
                  migrated = migrated;
                  parts = build_ok (environment env) w built done;
                  latest = latest;
                  served = ground (arith, served);
                }
          ]
        ]
