-- ===== src/Config.antt =====
-- The configuration records of internal/config/types.go.
-- `time.Duration` is a number of nanoseconds, taken as not negative; `int` is a natural number.
use chef_infra.Base.{ℕ, String, ◌<>◌, decimal, Bool}

pub record ServerConfig : Type 0 where
  pub host : String
  pub port : String

pub record GrpcConfig : Type 0 where
  pub enable_reflection : Bool
  pub max_receive_message_size : ℕ
  pub max_send_message_size : ℕ

pub record AuthConfig : Type 0 where
  pub jwt_secret : String
  pub access_token_duration : ℕ
  pub refresh_token_duration : ℕ
  pub refresh_token_enabled : Bool

pub record DatabaseConfig : Type 0 where
  pub host : String
  pub port : ℕ
  pub user : String
  pub password : String
  pub name : String
  pub ssl_mode : String

pub record AppConfig : Type 0 where
  pub server : ServerConfig
  pub grpc : GrpcConfig
  pub auth : AuthConfig
  pub database : DatabaseConfig

-- The text that internal/migration/migrate.go and internal/database/database.go both make.
unfoldable pub data_source : DatabaseConfig → String
data_source config =
    "host="
    <> (config.host
        <> (" user="
            <> (config.user
                <> (" password="
                    <> (config.password
                        <> (" dbname="
                            <> (config.name
                                <> (" port="
                                    <> (decimal config.port
                                        <> (" sslmode=" <> config.ssl_mode))))))))))
