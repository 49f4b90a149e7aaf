-- ===== src/App/Start.antt =====
-- What a start of the application has done before the server listens.
use chef_infra.Base.{ℕ, ◌<◌, String, ◌<>◌, some, ◌≡◌, inl, inr, List, [], ◌∷◌, arith}
use chef_infra.Base.Result.{Result, ok, err}
use chef_infra.Base.Exec.{Exec}
use chef_infra.Config.{AppConfig}
use chef_infra.Database.{Manager, close_manager}
use chef_infra.Server.Lifecycle.{start}
use chef_infra.Migration.Outside.{FilePath}
use chef_infra.Migration.DownTo.{IsGoose}
use chef_infra.Migration.Hook.{ReadsFiles, on_start-Settles}
use chef_infra.Migration.{last_version, get_migrations_dir, on_start}
use chef_infra.App.{Hook, Environment, database_hook, migration_hook, server_hook, hooks}

module _ {W : Type 0} where
  -- The `OnStart` functions in their order, up to the first that fails. `started` has the hooks whose
  -- function has succeeded, the latest first.
  unfoldable pub start_hooks :
      List (Hook W) → List (Hook W) → W → Result String (Unit {0}) × (List (Hook W) × W)
  start_hooks started [] w = (ok tt, (started, w))
  start_hooks started (hook ∷ rest) w =
      let (r, w') = hook.on_start w in
      let later = start_hooks (hook ∷ started) rest w' in
      elim r [ ok _ ↦ later | err e ↦ (err e, (started, w')) ]

  -- The `OnStop` functions in the given order, whether they fail or not.
  unfoldable pub stop_hooks : List (Hook W) → W → W
  stop_hooks [] w = w
  stop_hooks (hook ∷ rest) w = stop_hooks rest (hook.on_stop w).1

-- What fx documents of a start, within its timeout: the hooks' `OnStart` functions run in the order
-- in which the hooks were appended. The first that fails ends the start, with its error: the hooks
-- that were started are stopped, in the reverse order, and the errors of that are appended.
pub record IsLifecycle {W : Type 0} (run_start : List (Hook W) → Exec String W (Unit {0}))
    : Type 0 where
  pub starts :
      (all started : List (Hook W)) (w after : W)
      → start_hooks [] all w ≡ (ok tt, (started, after))
      → run_start all w ≡ (ok tt, after)
  pub fails :
      (all started : List (Hook W)) (e : String) (w after : W)
      → start_hooks [] all w ≡ (err e, (started, after))
      → (more : String) × (run_start all w ≡ (err (e <> more), stop_hooks started after))

module _ (E : Environment) (G : IsGoose E.host) (F : ReadsFiles E.host G) (dir : FilePath)
    (versions : List ℕ) (at : get_migrations_dir E.host ≡ ok dir)
    (files : E.host.collect_migrations dir ≡ ok versions)
    (run_start : List (Hook E.host.State) → Exec String E.host.State (Unit {0}))
    (L : IsLifecycle run_start) where
  -- How a start ends that the migrations let go on, and how one that they stop.
  pub data Starts (fuel : ℕ) (manager : Manager E.driver) (config : AppConfig) (w : E.host.State)
      (answer : Result String (Unit {0}) × E.host.State) : Type 0 where
    launched :
        (migrated : E.host.State)
        → on_start E.host fuel w ≡ some (ok tt, migrated)
        → G.version migrated ≡ last_version versions
        → answer ≡ (ok tt, E.spawn (start E.net config) migrated)
        → Starts fuel manager config w answer
    stopped :
        (e : String) (after : E.host.State)
        → on_start E.host fuel w ≡ some (err e, after)
        → (more : String) → answer ≡ (err (e <> more), (close_manager E.driver manager after).1)
        → Starts fuel manager config w answer

  migration_hook_answer :
      (fuel : ℕ) (w : E.host.State) (answer : Result String (Unit {0}) × E.host.State)
      → on_start E.host fuel w ≡ some answer
      → (migration_hook E fuel).on_start w ≡ answer
  unfolding migration_hook
  migration_hook_answer fuel w answer returns = rw (returns, migration_hook)

  -- The hooks' functions, by what the migrations answer.
  abbrev after_migration :
      ℕ
      → Manager E.driver
      → AppConfig
      → Result String (Unit {0}) × E.host.State
      → Result String (Unit {0}) × (List (Hook E.host.State) × E.host.State)
  after_migration fuel manager config (ok _, migrated) = (
    ok tt,
    (
      server_hook E config ∷ migration_hook E fuel ∷ database_hook E manager ∷ [],
      E.spawn (start E.net config) migrated,
    ),
  )
  after_migration fuel manager config (err e, after) =
      (err e, (database_hook E manager ∷ [], after))

  start_hooks-hooks :
      (fuel : ℕ) (manager : Manager E.driver) (config : AppConfig) (w : E.host.State)
      → (answer : Result String (Unit {0}) × E.host.State)
      → (migration_hook E fuel).on_start w ≡ answer
      → start_hooks [] (hooks E fuel manager config) w ≡ after_migration fuel manager config answer
  unfolding hooks database_hook server_hook start_hooks
  start_hooks-hooks fuel manager config w (ok _, migrated) moved = ground (arith, moved)
  start_hooks-hooks fuel manager config w (err e, after) moved = ground (arith, moved)

  -- With fx's, goose's and the migration files' documented behaviour, and fuel above the version of
  -- the database, a start of the application either leaves the database at the version of the latest
  -- migration file, and only then launches the server; or the migrations fail, and the start answers
  -- their error, to which others may be appended, has closed the database connection after it, and
  -- has not launched the server.
  pub hooks-Starts :
      (fuel : ℕ) (manager : Manager E.driver) (config : AppConfig) (w : E.host.State)
      → G.version w < fuel
      → Starts fuel manager config w (run_start (hooks E fuel manager config) w)
  unfolding database_hook stop_hooks
  hooks-Starts fuel manager config w enough =
      let database = database_hook E manager in
      let migration = migration_hook E fuel in
      let server = server_hook E config in
      elim (on_start-Settles E.host G F dir versions at files fuel w enough) [
        | inl (e, after, returns) ↦
            let moved = migration_hook_answer fuel w (err e, after) returns in
            let (more, answer) =
              L.fails (hooks E fuel manager config) (database ∷ []) e w after
                (start_hooks-hooks fuel manager config w _ moved) in
            stopped e after returns more answer
        | inr (migrated, returns, latest) ↦
            let moved = migration_hook_answer fuel w (ok tt, migrated) returns in
            launched migrated returns latest (
              L.starts (hooks E fuel manager config) (server ∷ migration ∷ database ∷ []) w
                (E.spawn (start E.net config) migrated)
                (start_hooks-hooks fuel manager config w _ moved))
      ]
