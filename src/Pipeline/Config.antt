-- ===== src/Pipeline/Config.antt =====
-- internal/pipeline/config/config.go. `int` and `int64` fields are natural numbers. A path is its
-- list of components, and the empty path is Go's "".
use chef_infra.Base.{ℕ, String, Bool, List, ◌++◌, ◌≡◌}
use chef_infra.Base.Dict.{Dict}

abbrev pub FilePath : Type 0
FilePath = List String

-- The path is in the directory or below.
abbrev pub Under : FilePath → FilePath → Type 0
Under dir path = (rest : FilePath) × (dir ++ rest ≡ path)

pub record DeployConfig : Type 0 where
  pub platform : String
  pub namespace : String
  pub ingress_domain : String
  pub registry : String
  pub pull_secret : String
  pub replica_count : ℕ
  pub static_path : FilePath
  pub max_deploy_size : ℕ

pub record NodeJsConfig : Type 0 where
  pub default_version : String
  pub allowed_engines : List String
  pub max_build_time : ℕ
  pub build_cache : Bool
  pub env_vars : Dict String
  pub build_image : String
  pub registry : String

pub record PipelineConfig : Type 0 where
  pub build_dir : FilePath
  pub artifacts_dir : FilePath
  pub cache_dir : FilePath
  pub default_timeout : ℕ
  pub nodejs : NodeJsConfig
  pub deploy : DeployConfig
