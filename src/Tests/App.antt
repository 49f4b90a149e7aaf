-- ===== src/Tests/App.antt =====
-- The application of internal/app/module.go on a small machine: how cmd/chef-infra/main.go brings it
-- up, and a session with it.
use chef_infra.Base.{[], ◌∷◌, ◌≡◌, refl, some, none, true, arith, ap, sym, string_dec}
use native.Mathlib.Decide.{ℕ_discrete}
use chef_infra.Base.Result.{ok}
use chef_infra.Base.Exec.{Exec}
use chef_infra.Base.Dict.{lookup}
use chef_infra.Database.{new_manager, new_database}
use chef_infra.Server.{is_protected_endpoint}
use chef_infra.Server.Loading.{
  EncoderConfig, ZapConfig, load_config, environment, override_grpc, new_logger,
}
use chef_infra.Auth.Service.{
  State, TokenPair, generate_token_pair, generate_token, generate_refresh_token, sign_token,
}
use chef_infra.Auth.Status.{Status}
use chef_infra.Auth.Handler.Goroutines.{registered}
use chef_infra.Auth.Handler.Accounts.{credentials}
use chef_infra.Auth.Middleware.{Context, get_user_from_context}
use chef_infra.Migration.Command.{new_migrator}
use chef_infra.App.{hooks, database_hook, migration_hook, server_hook}
use chef_infra.Migration.ModuleRoot.{find_module_root}
use chef_infra.Migration.{
  on_start, get_current_version, get_latest_version, get_migrations_dir, start_from, last_version,
  up, prepare,
}
use chef_infra.App.Provided.{Outside, Built, build, main, app_logger, provided}
use chef_infra.App.Start.{start_hooks}
use chef_infra.App.Main.{IsUp, main-IsUp}
use chef_infra.App.Sessions.{serve, serve_login, repository_of, raced_session}
use chef_infra.Tests.Start.{small_app, run_start, lifecycle}
use chef_infra.Tests.Migration.{goose, files_found, migrations, files, migrations_found}
use chef_infra.Tests.Loading.{settings, viper}
use chef_infra.Tests.Auth.Samples.{sign, config, libraries, libraries-IsSound, alice, valid}
use chef_infra.Tests.Auth.Race.{repository, empty, race, raced, done, after_race, finds_alice}
use chef_infra.Tests.Auth.Table.{table, table-IsTable}

abbrev encoder : EncoderConfig
encoder = record { encode_level = ""; encode_time = ""; console_separator = "" }

abbrev outside : Outside small_app
outside = record {
  viper = viper;
  Logger = ZapConfig;
  new_development_encoder_config = encoder;
  new_production_config = record {
    level = "info";
    development = true;
    encoding = "json";
    encoder_config = encoder;
    output_paths = [];
    error_output_paths = [];
  };
  build_logger = λ c. ok c;
  gorm = λ connection. table;
}

comes_up : (main small_app outside 4 run_start "" 2).0 ≡ ok tt
unfolding main build app_logger new_logger load_config environment override_grpc new_manager
    new_database new_migrator run_start start_hooks hooks database_hook migration_hook server_hook
    on_start get_current_version get_latest_version get_migrations_dir find_module_root start_from
    last_version up prepare string_dec
comes_up = refl

main-IsUp_example :
    IsUp small_app outside goose files_found migrations files migrations_found refl run_start
      lifecycle "" 2
      (main small_app outside 4 run_start "" 2).1
unfolding build app_logger new_logger load_config override_grpc string_dec environment new_manager
    new_database new_migrator
main-IsUp_example =
    main-IsUp small_app outside goose files_found migrations files migrations_found refl run_start
      lifecycle 4 "" 2 (omega arith) comes_up

-- An application whose tokens are signed as the libraries can.
abbrev built : Built small_app outside
built = record {
  config = record settings { auth = config };
  manager = record { db = tt; config = settings.database };
}

abbrev AppState : Type 0
AppState = State libraries (repository_of (provided small_app outside built))

abbrev no_token : Context
no_token = record { metadata = none; values = [] }

abbrev with_access : Context
with_access = record { metadata = some (("authorization", "A" ∷ []) ∷ []); values = [] }

is_protected : is_protected_endpoint "/deploy.Deploy/Start" ≡ true
unfolding is_protected_endpoint lookup string_dec
is_protected = refl

abbrev nothing : Context → Exec Status AppState (Unit {0})
nothing ctx s = (ok tt, s)

abbrev pair : TokenPair
pair = record { access_token = "A"; refresh_token = "R" }

makes_pair : (generate_token_pair libraries repository config "alice" raced).0 ≡ ok pair
unfolding generate_token_pair generate_token generate_refresh_token sign_token sign string_dec
    ℕ_discrete
makes_pair = refl

raced_session_example :
    ((serve_login valid libraries
        (provided small_app outside built)
        (credentials alice)
        no_token
        raced).0
      ≡ ok (record {
        success = true;
        message = "Login successful";
        access_token = "A";
        refresh_token = "R";
      }))
    × ((new_ctx : Context) × (get_user_from_context new_ctx ≡ ok "alice")
        × (after : AppState) × (serve valid libraries
              (provided small_app outside built)
              "/deploy.Deploy/Start"
              nothing
              with_access
              raced
            ≡ nothing new_ctx after))
unfolding lookup string_dec
raced_session_example =
    raced_session small_app outside valid libraries built table-IsTable libraries-IsSound empty
      raced raced race 0 (done alice) registered no_token pair finds_alice refl
      (ap (λ p. p.state.store) (sym after_race)) makes_pair (omega arith) "/deploy.Deploy/Start"
      nothing with_access (("authorization", "A" ∷ []) ∷ []) [] is_protected refl refl
