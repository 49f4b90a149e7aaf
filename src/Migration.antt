-- ===== src/Migration.antt =====
-- internal/migration: the migrator of migrate.go and the start hook of module.go, over goose and
-- the database.
pub mod Outside
pub mod ModuleRoot
pub mod Hook
pub mod DownTo
pub mod Command
use chef_infra.Base.{
  ℕ, zero, suc, ltb, String, ◌<>◌, decimal, Bool, true, false, Option, none, some, List, [], ◌∷◌,
  ◌++◌, if◌then◌else◌, nat_eq,
}
use chef_infra.Base.Result.{Result, ok, err, map_err}
use chef_infra.Base.Exec.{Exec, pure, lift, ◌>>=◌, ◌>>◌}
use mathlib.Core.Option
use Outside.{FilePath, Host}
use ModuleRoot.{find_module_root}

-- `fmt.Errorf("text: %w", err)`
abbrev wrap : {S A : Type 0} → String → Exec String S A → Exec String S A
wrap text m s = (map_err (λ e. text <> (": " <> e)) (m s).0, (m s).1)

-- `migrations[len(migrations)-1].Version`, or 0 where there are none.
unfoldable pub last_version : List ℕ → ℕ
last_version [] = 0
last_version (v ∷ []) = v
last_version (_ ∷ v ∷ vs) = last_version (v ∷ vs)

module _ (H : Host) where
  open H use {State}

  unfoldable pub get_migrations_dir : Result String FilePath
  get_migrations_dir = elim (find_module_root H) [
    | ok root ↦ ok (root ++ ("migrations" ∷ []))
    | err e ↦ err ("failed to find project root: " <> e)
  ]

  -- The first two steps of `Up`, `Down` and `DownTo`.
  unfoldable pub prepare : Exec String State FilePath
  prepare = do
    wrap "failed to set dialect" H.set_dialect
    wrap "failed to get migrations directory" (lift get_migrations_dir)

  unfoldable pub up : Exec String State (Unit {0})
  up = do dir ← prepare; wrap "failed to run migrations" (H.up dir)

  unfoldable pub down : Exec String State (Unit {0})
  down = do dir ← prepare; wrap "failed to rollback migrations" (H.down dir)

  unfoldable pub get_current_version : Exec String State ℕ
  get_current_version = H.get_db_version

  unfoldable pub get_latest_version : Exec String State ℕ
  get_latest_version = do
    dir ← lift get_migrations_dir
    versions ← lift (H.collect_migrations dir)
    pure (last_version versions)

  -- The loop of `DownTo`: none where the fuel runs out.
  unfoldable pub down_loop :
      ℕ → FilePath → ℕ → ℕ → State → Option (Result String (Unit {0}) × State)
  down_loop zero dir version current s = none
  down_loop (suc fuel) dir version current s =
      let text = "failed to migrate down to version " <> decimal version in
      let (moved, s') = wrap text (H.down dir) s in
      let (read, s'') = get_current_version s' in
      let rest : Option (Result String (Unit {0}) × State) = elim moved [
        | err e ↦ some (err e, s')
        | ok _ ↦ elim read [
          | err e ↦ some (err e, s'')
          | ok current' ↦ down_loop fuel dir version current' s''
        ]
      ] in
      if ltb version current then rest else some (ok tt, s)

  -- Goes on after a successful step that is not a loop.
  abbrev pub and_then :
      {A : Type 0}
      → Result String A × State
      → (A → State → Option (Result String (Unit {0}) × State))
      → Option (Result String (Unit {0}) × State)
  and_then p f = elim p.0 [ ok a ↦ f a p.1 | err e ↦ some (err e, p.1) ]

  unfoldable pub down_to : ℕ → ℕ → State → Option (Result String (Unit {0}) × State)
  down_to fuel version s =
      and_then (prepare s)
        λ dir t. and_then (get_current_version t) λ current u. down_loop fuel dir version current u

  unfoldable pub reset : Exec String State (Unit {0})
  reset = down >> up

  -- The part of `OnStart` that compares the versions.
  unfoldable pub start_from : ℕ → ℕ → ℕ → State → Option (Result String (Unit {0}) × State)
  start_from fuel current latest s =
      let downgrade : Option (Result String (Unit {0}) × State) =
        Option.map (λ (r, t). (map_err (λ e. "failed to downgrade database: " <> e) r, t))
          (down_to fuel latest s) in
      let upgrade = some (wrap "failed to upgrade database" up s) in
      if nat_eq current latest
      then some (ok tt, s)
      else if ltb latest current
      then downgrade
      else upgrade

  -- `OnStart`: brings the database to the latest version that the directory has.
  unfoldable pub on_start : ℕ → State → Option (Result String (Unit {0}) × State)
  on_start fuel s =
      and_then (wrap "failed to get current migration version" get_current_version s) λ current t.
        and_then (wrap "failed to get latest migration version" get_latest_version t)
          λ latest u. start_from fuel current latest u
