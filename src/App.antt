-- ===== src/App.antt =====
-- internal/app/module.go: the hooks that the modules append to fx's life cycle, in the order of the
-- `fx.Invoke` calls. The parts share one world, the one of the migrator's `Host`.
pub mod Start
pub mod Provided
pub mod Main
pub mod Sessions
use chef_infra.Base.{ℕ, String, Option, none, some, List, [], ◌∷◌}
use chef_infra.Base.Result.{err}
use chef_infra.Base.Exec.{Exec, pure}
use chef_infra.Config.{AppConfig}
use chef_infra.Database.{Driver, Manager, close_manager}
use chef_infra.Server.Lifecycle.{Net, start, stop}
use chef_infra.Migration.Outside.{Host}
use chef_infra.Migration.Command.{Connection, close}
use chef_infra.Migration.{on_start}

pub record Hook (W : Type 0) : Type 0 where
  pub on_start : Exec String W (Unit {0})
  pub on_stop : Exec String W (Unit {0})

-- `spawn` starts a goroutine, whose error is only logged.
pub record Environment : Type 1 where
  pub host : Host
  pub connection : Connection host
  pub driver : Driver host.State
  pub net : Net host.State
  pub spawn : Exec String host.State (Unit {0}) → host.State → host.State

module _ (E : Environment) where
  open E use {host, connection, driver, net, spawn}

  -- The hook of internal/database/module.go.
  unfoldable pub database_hook : Manager driver → Hook host.State
  database_hook manager = record { on_start = pure tt; on_stop = close_manager driver manager }

  -- The hook of internal/migration/module.go. A loop of `DownTo` that runs out of fuel is an error
  -- here.
  unfoldable pub migration_hook : ℕ → Hook host.State
  migration_hook fuel = record {
    on_start =
        λ w. elim (on_start host fuel w) [ none ↦ (err "out of fuel", w) | some answer ↦ answer ];
    on_stop = close host connection;
  }

  -- The hook of internal/app/module.go.
  unfoldable pub server_hook : AppConfig → Hook host.State
  server_hook config = record {
    on_start = λ w. pure tt (spawn (start net config) w);
    on_stop = λ w. pure tt (stop net w);
  }

  unfoldable pub hooks : ℕ → Manager driver → AppConfig → List (Hook host.State)
  hooks fuel manager config = database_hook manager ∷ migration_hook fuel ∷ server_hook config ∷ []
