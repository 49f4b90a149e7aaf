-- ===== src/Pipeline/Interfaces.antt =====
-- What the pipeline works with: the interfaces `Builder` (internal/pipeline/builder/builder.go),
-- `FactoryInterface` (builder/factory.go), `Deployer` (deployer/deployer.go) and `Validator`
-- (validator/validator.go), and the calls of the packages `os` and `time`. All act on one world:
-- the file system, the container engine, the cluster and the clock. An error is its text.
use chef_infra.Base.{ℕ, String, Bool}
use chef_infra.Base.Dict.{Dict}
use chef_infra.Base.Exec.{Exec}
use chef_infra.Pipeline.Config.{FilePath}
use chef_infra.Pipeline.Types.{Build, BuildResult}

-- An action on the world that returns a value or an error text.
abbrev pub Action : Type 0 → Type 0 → Type 0
Action W A = Exec String W A

pub record FileInfo : Type 0 where
  pub size : ℕ
  pub is_dir : Bool
  pub mod_time : ℕ

pub record Os (W : Type 0) : Type 0 where
  pub mkdir_all : FilePath → Action W (Unit {0})
  pub remove_all : FilePath → Action W (Unit {0})
  pub stat : FilePath → Action W FileInfo
  pub read_file : FilePath → Action W String
  pub now : W → ℕ × W

-- `Build` is told whether its context has been cancelled by the time it returns.
pub record Builder (W : Type 0) : Type 0 where
  pub build : Bool → Build → Action W BuildResult
  pub validate : Build → Action W (Unit {0})
  pub cleanup : Action W (Unit {0})

pub record Options : Type 0 where
  pub work_dir : FilePath
  pub cache_dir : FilePath
  pub environment : Dict String
  pub timeout : ℕ

pub record Factory (W : Type 0) : Type 0 where
  pub create_builder : String → Options → Action W (Builder W)

pub record Deployer (W : Type 0) : Type 0 where
  pub deploy : Build → Action W (Unit {0})
  pub rollback : Build → Action W (Unit {0})
  pub validate : Build → Action W (Unit {0})

pub record Validator (W : Type 0) : Type 0 where
  pub validate_build_config : Build → Action W (Unit {0})
  pub validate_artifact : FilePath → Action W (Unit {0})

-- The dependencies of `Pipeline`.
pub record Deps (W : Type 0) : Type 0 where
  pub os : Os W
  pub factory : Factory W
  pub deployer : Deployer W
  pub validator : Validator W
