-- ===== src/Server/Loading.antt =====
-- `LoadConfig` of internal/server/config.go over viper, and the choice that `NewLogger` of
-- internal/server/logger.go makes for zap.
pub mod Overrides
use chef_infra.Base.{ℕ, String, ◌<>◌, ◌==◌, Bool, true, List, [], ◌∷◌, ltb, if◌then◌else◌}
use chef_infra.Base.Result.{Result, map_err}
use chef_infra.Base.Exec.{Exec, pure, ◌>>=◌, ◌>>◌}
use chef_infra.Config.{AppConfig, GrpcConfig}

-- The calls of viper on the file that was read. `get_string_map` tells how many settings a key has;
-- `unmarshal_key` writes those that are there over the values that are given.
pub record Viper (W : Type 0) : Type 0 where
  -- With the file's name, its type and its directory.
  pub read_in_config : String → String → String → Exec String W (Unit {0})
  pub unmarshal : Exec String W AppConfig
  pub get_string_map : W → String → ℕ
  pub unmarshal_key : String → GrpcConfig → Exec String W GrpcConfig

-- `fmt.Errorf("text: %w", err)`
abbrev pub wrap : {W A : Type 0} → String → Exec String W A → Exec String W A
wrap text m w = (map_err (λ e. text <> (": " <> e)) (m w).0, (m w).1)

abbrev pub env_development : String
env_development = "development"

-- The environment that is meant.
unfoldable pub environment : String → String
environment env = if env == "" then env_development else env

module _ {W : Type 0} (v : Viper W) where
  -- The settings of `grpc.<environment>` over the others.
  unfoldable pub override_grpc : String → AppConfig → Exec String W AppConfig
  override_grpc env config w =
      (if ltb 0 (v.get_string_map w ("grpc." <> env))
          then (do
            grpc ←
                wrap "error unmarshaling env config" (v.unmarshal_key ("grpc." <> env) config.grpc)
            pure (record config { grpc = grpc }))
          else pure config)
        w

  -- The argument is `os.Getenv("APP_ENV")`.
  unfoldable pub load_config : String → Exec String W AppConfig
  load_config env = do
    wrap "error reading config file" (v.read_in_config "config" "toml" "./config/chef-infra")
    config ← wrap "error unmarshaling config" v.unmarshal
    override_grpc (environment env) config

-- zap's configuration, as far as `NewLogger` writes it.
pub record EncoderConfig : Type 0 where
  pub encode_level : String
  pub encode_time : String
  pub console_separator : String

pub record ZapConfig : Type 0 where
  pub level : String
  pub development : Bool
  pub encoding : String
  pub encoder_config : EncoderConfig
  pub output_paths : List String
  pub error_output_paths : List String

module _ {Logger : Type 0} (new_development_encoder_config : EncoderConfig)
    (new_production_config : ZapConfig) (build : ZapConfig → Result String Logger) where
  abbrev development_config : ZapConfig
  development_config = record {
    level = "debug";
    development = true;
    encoding = "console";
    encoder_config = record new_development_encoder_config {
      encode_level = "CapitalColorLevelEncoder";
      encode_time = "2006-01-02 15:04:05";
      console_separator = " | ";
    };
    output_paths = "stdout" ∷ [];
    error_output_paths = "stderr" ∷ [];
  }

  unfoldable pub new_logger : String → Result String Logger
  new_logger env =
      build (if env == "development" then development_config else new_production_config)
