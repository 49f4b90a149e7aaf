-- ===== src/Server/Loading/Overrides.antt =====
-- Which settings `LoadConfig` of internal/server/config.go takes from where.
use chef_infra.Base.{◌<◌, String, ◌<>◌, ◌≡◌, ◌⊎◌}
use chef_infra.Base.Result.{ok}
use chef_infra.Config.{AppConfig}
use chef_infra.Server.Loading.{Viper, environment}

module _ {W : Type 0} (v : Viper W) where
  -- The key of the environment's settings.
  abbrev pub key : String → String
  key env = "grpc." <> environment env

  -- Where a configuration comes from: all but the gRPC settings from the file, and those from the
  -- file too, with the settings of the environment written over them where it has any.
  pub record ComesFrom (env : String) (config : AppConfig) (w after : W) : Type 0 where
    pub base : AppConfig
    pub read : W
    pub from_file : v.unmarshal w ≡ (ok base, read)
    pub server : config.server ≡ base.server
    pub auth : config.auth ≡ base.auth
    pub database : config.database ≡ base.database
    pub grpc :
        ((v.get_string_map read (key env) ≡ 0) × (config.grpc ≡ base.grpc) × (after ≡ read))
        ⊎ ((0 < v.get_string_map read (key env))
            × (v.unmarshal_key (key env) base.grpc read ≡ (ok config.grpc, after)))
