-- ===== src/Tests/Start.antt =====
-- A start of the application of internal/app/module.go on a database that is one migration behind.
use chef_infra.Base.{ℕ, String, ◌<>◌, List, [], ◌≡◌, refl, ap, arith}
use chef_infra.Base.Result.{Result, ok, err}
use chef_infra.Base.Exec.{Exec}
use chef_infra.Database.{Driver, Manager}
use chef_infra.Server.Lifecycle.{Net}
use chef_infra.App.{Hook, Environment, hooks}
use chef_infra.App.Start.{start_hooks, stop_hooks, IsLifecycle, Starts, hooks-Starts}
use chef_infra.Tests.Migration.{
  files, host, goose, files_found, migrations, migrations_found, connection,
}
use chef_infra.Tests.Loading.{settings}

-- The state is the version of the database.
abbrev pub driver : Driver ℕ
driver = record {
  Connection = Unit {0};
  Handle = Unit {0};
  open_postgres = λ source logger w. (ok tt, w);
  sql_db = λ db w. (ok tt, w);
  close = λ handle w. (ok tt, w);
}

abbrev pub net : Net ℕ
net = record {
  Listener = Unit {0};
  listen = λ network address w. (ok tt, w);
  serve = λ lis w. (ok tt, w);
  graceful_stop = λ w. w;
}

abbrev pub small_app : Environment
small_app = record {
  host = host;
  connection = connection;
  driver = driver;
  net = net;
  spawn = λ main w. w;
}

abbrev manager : Manager driver
manager = record { db = tt; config = settings.database }

-- What a start answers, once the hooks' functions have run.
abbrev finish : Result String (Unit {0}) × (List (Hook ℕ) × ℕ) → Result String (Unit {0}) × ℕ
finish (ok _, (started, after)) = (ok tt, after)
finish (err e, (started, after)) = (err (e <> "; stopped"), stop_hooks started after)

unfoldable pub run_start : List (Hook ℕ) → Exec String ℕ (Unit {0})
run_start all w = finish (start_hooks [] all w)

run_start-ok :
    (all started : List (Hook ℕ)) (w after : ℕ)
    → start_hooks [] all w ≡ (ok tt, (started, after))
    → run_start all w ≡ (ok tt, after)
unfolding run_start
run_start-ok all started w after ran = ap finish ran

run_start-err :
    (all started : List (Hook ℕ)) (e : String) (w after : ℕ)
    → start_hooks [] all w ≡ (err e, (started, after))
    → (more : String) × (run_start all w ≡ (err (e <> more), stop_hooks started after))
unfolding run_start
run_start-err all started e w after ran = ("; stopped", ap finish ran)

pub lifecycle : IsLifecycle run_start
lifecycle = record {
  starts = λ all started w after ran. run_start-ok all started w after ran;
  fails = λ all started e w after ran. run_start-err all started e w after ran;
}

hooks-Starts_example :
    Starts small_app goose files_found migrations files migrations_found refl run_start lifecycle 4
      manager settings 2
      (run_start (hooks small_app 4 manager settings) 2)
hooks-Starts_example =
    hooks-Starts small_app goose files_found migrations files migrations_found refl run_start
      lifecycle 4 manager settings 2 (omega arith)
