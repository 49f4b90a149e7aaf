-- ===== src/Pipeline/Static.antt =====
-- `StaticDeployer` of internal/pipeline/deployer/static_deployer.go. The two runs of `tar` are
-- parameters, and so is `os.IsNotExist`. Project ids are taken to be single path components.
-- Logging is left out.
pub mod Restores
pub mod Limits
use chef_infra.Base.{
  ℕ, ◌*◌, String, ◌<>◌, Bool, false, List, [], ◌∷◌, ◌++◌, ltb, nat_eq, decimal, if◌then◌else◌,
}
use chef_infra.Base.Result.{Result, ok, err}
use chef_infra.Base.Exec.{pure, raise, ◌>>=◌, ◌>>◌}
use chef_infra.Pipeline.Config.{FilePath, DeployConfig}
use chef_infra.Pipeline.Types.{Build}
use chef_infra.Pipeline.Interfaces.{Action, Os, FileInfo, Deployer}
use chef_infra.Pipeline.BuildContext.{wrap}

-- `tar -czf archive -C source .` and `tar -xzf archive -C target`
pub record Tar (W : Type 0) : Type 0 where
  pub create : FilePath → FilePath → Action W (Unit {0})
  pub extract : FilePath → FilePath → Action W (Unit {0})

abbrev pub default_max_deploy_size : ℕ
default_max_deploy_size = 100 * 1024 * 1024

abbrev or_default : FilePath → FilePath
or_default [] = "var" ∷ "www" ∷ "html" ∷ []
or_default (name ∷ rest) = name ∷ rest

-- The configuration that `NewStaticDeployer` leaves.
unfoldable pub new_static_config : DeployConfig → DeployConfig
new_static_config config = record config {
  static_path = or_default config.static_path;
  max_deploy_size =
      if nat_eq config.max_deploy_size 0 then default_max_deploy_size else config.max_deploy_size;
}

abbrev pub target_dir : DeployConfig → Build → FilePath
target_dir config build = config.static_path ++ (build.project_id ∷ [])

abbrev pub backup_path : DeployConfig → Build → FilePath
backup_path config build = config.static_path ++ ("backups" ∷ (build.id <> ".tar.gz") ∷ [])

module _ {W : Type 0} (os : Os W) (tar : Tar W) (is_not_exist : String → Bool)
    (config : DeployConfig) where
  -- `os.IsNotExist(err)` of a call that may have succeeded.
  abbrev is_missing : Result String FileInfo → Bool
  is_missing (ok info) = false
  is_missing (err e) = is_not_exist e

  unfoldable pub create_backup : FilePath → Build → Action W (Unit {0})
  create_backup source build w =
      let (r, w') = os.stat source w in
      if is_missing r
      then (ok tt, w')
      else ((os.mkdir_all (config.static_path ++ ("backups" ∷ []))
            >> tar.create (backup_path config build) source)
          w')

  unfoldable pub extract_artifact : FilePath → FilePath → Action W (Unit {0})
  extract_artifact artifact target = os.mkdir_all target >> tar.extract artifact target

  unfoldable pub deploy : Build → Action W (Unit {0})
  deploy build = do
    wrap "failed to create static directory" (os.mkdir_all config.static_path)
    wrap "failed to create backup" (create_backup (target_dir config build) build)
    wrap "failed to extract artifact"
        (extract_artifact build.artifact_path (target_dir config build))

  unfoldable pub rollback : Build → Action W (Unit {0})
  rollback build =
      wrap "failed to restore backup"
        (extract_artifact (backup_path config build) (target_dir config build))

  abbrev check_size : ℕ → Action W (Unit {0})
  check_size size =
      if ltb config.max_deploy_size size
      then raise (
          ("artifact size " <> decimal size)
          <> (" exceeds maximum allowed size " <> decimal config.max_deploy_size))
      else pure tt

  abbrev stat_artifact : FilePath → Action W (Unit {0})
  stat_artifact [] = raise "artifact path is required"
  stat_artifact (name ∷ rest) = do
    info ← wrap "failed to stat artifact" (os.stat (name ∷ rest))
    check_size info.size

  unfoldable pub validate : Build → Action W (Unit {0})
  validate build = stat_artifact build.artifact_path

  abbrev pub static_deployer : Deployer W
  static_deployer = record { deploy = deploy; rollback = rollback; validate = validate }
