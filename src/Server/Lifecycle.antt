-- ===== src/Server/Lifecycle.antt =====
-- How internal/server/server.go sets its gRPC server up, starts and stops it. The network and the
-- gRPC server are parameters; logging is left out, but for the fields of the configuration.
use chef_infra.Base.{ℕ, String, ◌<>◌, Bool, List, [], ◌∷◌, if◌then◌else◌}
use chef_infra.Base.Exec.{Exec, ◌>>=◌}
use chef_infra.Config.{AppConfig}
use chef_infra.Server.Loading.{wrap}

-- The listener that `net.Listen` returns, and the calls on the gRPC server.
pub record Net (W : Type 0) : Type 1 where
  pub Listener : Type 0
  pub listen : String → String → Exec String W Listener
  pub serve : Listener → Exec String W (Unit {0})
  pub graceful_stop : W → W

-- What is registered: the service of the generated code for proto/auth.proto, or the reflection.
pub data Service : Type 0 where
  auth_service reflection_service : Service

-- The sizes that `NewServer` gives to the gRPC server beside the interceptor, and the services that
-- it registers.
pub record Setup : Type 0 where
  pub max_recv_msg_size : ℕ
  pub max_send_msg_size : ℕ
  pub services : List Service

unfoldable pub new_server : AppConfig → Setup
new_server config = record {
  max_recv_msg_size = config.grpc.max_receive_message_size;
  max_send_msg_size = config.grpc.max_send_message_size;
  services =
      if config.grpc.enable_reflection
      then auth_service ∷ reflection_service ∷ []
      else auth_service ∷ [];
}

pub data Field : Type 0 where
  string_field : String → String → Field
  bool_field : String → Bool → Field
  int_field : String → ℕ → Field

-- `serverConfigToField`, with `os.Getenv("APP_ENV")`.
unfoldable pub server_config_to_field : String → AppConfig → List Field
server_config_to_field env config =
    string_field "environment" env
    ∷ bool_field "reflection_enabled" config.grpc.enable_reflection
    ∷ int_field "max_receive_size" config.grpc.max_receive_message_size
    ∷ int_field "max_send_size" config.grpc.max_send_message_size
    ∷ []

module _ {W : Type 0} (N : Net W) where
  unfoldable pub start : AppConfig → Exec String W (Unit {0})
  start config = do
    lis ←
        wrap "failed to listen" (N.listen "tcp" (config.server.host <> (":" <> config.server.port)))
    wrap "failed to serve" (N.serve lis)

  unfoldable pub stop : W → W
  stop = N.graceful_stop
