-- ===== src/Tests/Loading.antt =====
-- A settings file with settings for one environment, and the theorem about `LoadConfig` of
-- internal/server/config.go applied to it.
use chef_infra.Base.{◌==◌, string_dec, ◌≡◌, true, false, if◌then◌else◌, refl, ℕ}
use chef_infra.Base.Result.{ok}
use chef_infra.Config.{AppConfig}
use chef_infra.Server.Loading.{Viper, environment, override_grpc, load_config}

abbrev pub settings : AppConfig
settings = record {
  server = record { host = "localhost"; port = "50051" };
  grpc = record {
    enable_reflection = true;
    max_receive_message_size = 1024;
    max_send_message_size = 1024;
  };
  auth = record {
    jwt_secret = "secret";
    access_token_duration = 60;
    refresh_token_duration = 600;
    refresh_token_enabled = true;
  };
  database = record {
    host = "db";
    port = 5432;
    user = "chef";
    password = "chef";
    name = "chef";
    ssl_mode = "disable";
  };
}

-- The production settings turn the reflection off.
abbrev pub viper : Viper ℕ
viper = record {
  read_in_config = λ name kind dir w. (ok tt, w);
  unmarshal = λ w. (ok settings, w);
  get_string_map = λ w key. if key == "grpc.production" then 1 else 0;
  unmarshal_key = λ key config w. (ok (record config { enable_reflection = false }), w);
}

abbrev in_production : AppConfig
in_production = record settings { grpc = record settings.grpc { enable_reflection = false } }

in_development : (load_config viper "" 0).0 ≡ ok settings
unfolding load_config environment override_grpc string_dec
in_development = refl
