-- ===== src/Auth/Wiring.antt =====
-- The constructors of internal/auth, and what `NewModule` of internal/auth/module.go gives to fx.
-- Loggers are left out.
use chef_infra.Config.{AppConfig, AuthConfig}
use chef_infra.Auth.Repository.{Repository}
use chef_infra.Auth.Gorm.{Gorm, gorm_repository}

pub record Service : Type 1 where
  pub config : AuthConfig
  pub repository : Repository

abbrev pub new_service : AuthConfig → Repository → Service
new_service config repository = record { config = config; repository = repository }

pub record Handler : Type 1 where
  pub service : Service

abbrev pub new_handler : Service → Handler
new_handler service = record { service = service }

pub record AuthMiddleware : Type 0 where
  pub config : AuthConfig

abbrev pub new_auth_middleware : AuthConfig → AuthMiddleware
new_auth_middleware config = record { config = config }

-- What the constructors of a module make, each from what the others make.
pub record Parts : Type 1 where
  pub handler : Handler
  pub middleware : AuthMiddleware

abbrev pub new_module : Gorm → AppConfig → Parts
new_module db config =
    let repository = gorm_repository db in
    let service = new_service config.auth repository in
    record { handler = new_handler service; middleware = new_auth_middleware config.auth }
