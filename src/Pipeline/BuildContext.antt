-- ===== src/Pipeline/BuildContext.antt =====
-- internal/pipeline/builder/build_context.go. `filepath.Join` appends components: build ids are
-- taken to be single components, without separators and other than "", "." and "..".
use chef_infra.Base.{String, ◌<>◌, List, [], ◌∷◌, ◌++◌}
use chef_infra.Base.Result.{map_err}
use chef_infra.Base.Exec.{pure, ◌>>◌}
use chef_infra.Pipeline.Config.{FilePath}
use chef_infra.Pipeline.Interfaces.{Action, Os}

pub record BuildContext : Type 0 where
  pub root_dir : FilePath
  pub build_dir : FilePath
  pub artifact_dir : FilePath
  pub cache_dir : FilePath

-- A path in a message.
pub path_text : FilePath → String
path_text [] = ""
path_text (name ∷ rest) = "/" <> (name <> path_text rest)

-- `fmt.Errorf("text: %w", err)`
abbrev pub wrap : {W A : Type 0} → String → Action W A → Action W A
wrap text m w = (map_err (λ e. text <> (": " <> e)) (m w).0, (m w).1)

-- The paths of a new context.
abbrev pub context_at : FilePath → String → BuildContext
context_at root_dir build_id = record {
  root_dir = root_dir;
  build_dir = root_dir ++ ("builds" ∷ build_id ∷ []);
  artifact_dir = root_dir ++ ("artifacts" ∷ build_id ∷ []);
  cache_dir = root_dir ++ ("cache" ∷ build_id ∷ []);
}

module _ {W : Type 0} (os : Os W) where
  -- The loop over `dirs`.
  make_dirs : List FilePath → Action W (Unit {0})
  make_dirs [] = pure tt
  make_dirs (dir ∷ dirs) =
      let rest = make_dirs dirs in
      wrap ("failed to create directory " <> path_text dir) (os.mkdir_all dir) >> rest

  unfoldable pub new_build_context : FilePath → String → Action W BuildContext
  unfolding make_dirs path_text
  new_build_context root_dir build_id = do
    let bc = context_at root_dir build_id
    make_dirs (bc.build_dir ∷ bc.artifact_dir ∷ bc.cache_dir ∷ [])
    pure bc

  -- `Cleanup` of the context.
  unfoldable pub cleanup_context : BuildContext → Action W (Unit {0})
  cleanup_context bc = os.remove_all bc.build_dir
