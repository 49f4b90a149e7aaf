-- ===== src/Pipeline/Cleanup.antt =====
-- `CleanupManager` of internal/pipeline/cleanup.go. Times and `maxAge` are natural numbers, so that
-- `now.Sub(modTime) > maxAge` is `modTime + maxAge < now`. What is only logged is left out.
pub mod Kept
use chef_infra.Base.{
  ℕ, ◌+◌, String, ◌<>◌, Bool, true, false, List, [], ◌∷◌, ◌++◌, ltb, if◌then◌else◌,
}
use chef_infra.Base.Result.{ok, err}
use chef_infra.Pipeline.Config.{FilePath}
use chef_infra.Pipeline.Interfaces.{Action, Os, FileInfo}

-- An entry that `os.ReadDir` returns; `info` is its method `Info`.
pub record DirEntry (W : Type 0) : Type 0 where
  pub name : String
  pub is_dir : Bool
  pub info : Action W FileInfo

module _ {W : Type 0} (os : Os W) (read_dir : FilePath → Action W (List (DirEntry W)))
    (build_dir : FilePath) where
  -- The body of the loop. An error of a call is only logged.
  unfoldable pub clean_entry : ℕ → ℕ → DirEntry W → W → W
  clean_entry now max_age dir w =
      if dir.is_dir
      then (let (r, w') = dir.info w in
          elim r [
            | err e ↦ w'
            | ok info ↦
                if ltb (info.mod_time + max_age) now
                then (os.remove_all (build_dir ++ (dir.name ∷ [])) w').1
                else w'
          ])
      else w

  unfoldable pub clean_entries : ℕ → ℕ → List (DirEntry W) → W → W
  clean_entries now max_age [] w = w
  clean_entries now max_age (dir ∷ dirs) w =
      clean_entries now max_age dirs (clean_entry now max_age dir w)

  unfoldable pub cleanup_old_builds : ℕ → Action W (Unit {0})
  cleanup_old_builds max_age w =
      let (now, w₁) = os.now w in
      let (r, w₂) = read_dir build_dir w₁ in
      elim r [
        | err e ↦ (err ("failed to read build directory: " <> e), w₂)
        | ok build_dirs ↦ (ok tt, clean_entries now max_age build_dirs w₂)
      ]
