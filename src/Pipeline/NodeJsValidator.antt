-- ===== src/Pipeline/NodeJsValidator.antt =====
-- internal/pipeline/validator/nodejs_validator.go. `encoding/json` and the reading of a path from
-- its text are parameters. A nil `Engines` map is `none`; in the other maps nil and empty are read
-- alike.
pub mod Acceptance
use chef_infra.Base.{
  ℕ, ◌*◌, String, ◌<>◌, ◌==◌, Option, none, some, List, [], ◌∷◌, ◌++◌, ltb, if◌then◌else◌,
}
use chef_infra.Base.Result.{Result, ok, err, map_err}
use chef_infra.Base.Exec.{pure, raise, lift, continue, ◌>>=◌, ◌>>◌}
use chef_infra.Base.Dict.{Dict, lookup}
use chef_infra.Pipeline.Config.{FilePath, NodeJsConfig}
use chef_infra.Pipeline.Types.{Build, Value, text, other}
use chef_infra.Pipeline.Interfaces.{Action, Os, FileInfo, Validator}
use chef_infra.Pipeline.BuildContext.{wrap}

pub record PackageJson : Type 0 where
  pub name : String
  pub version : String
  pub dependencies : Dict String
  pub scripts : Dict String
  pub engines : Option (Dict String)

-- `pkg.Engines["node"]`, where a missing key reads as "".
unfoldable pub node_engine : PackageJson → String
node_engine pkg = elim pkg.engines [
  | none ↦ ""
  | some engines ↦ elim (lookup "node" engines) [ none ↦ "" | some version ↦ version ]
]

-- `build.BuilderConfig["sourceDir"].(string)`
unfoldable pub source_dir : Build → Option String
source_dir build = elim build.builder_config [
  | none ↦ none
  | some config ↦ elim (lookup "sourceDir" config) [
    | none ↦ none
    | some (text dir) ↦ some dir
    | some other ↦ none
  ]
]

-- The loop over the allowed engines.
unfoldable pub is_allowed : String → List String → Result String (Unit {0})
is_allowed node [] = err ("unsupported node version: " <> node)
is_allowed node (allowed ∷ rest) =
    let later = is_allowed node rest in if node == allowed then ok tt else later

unfoldable pub validate_node_version : NodeJsConfig → PackageJson → Result String (Unit {0})
validate_node_version config pkg =
    if node_engine pkg == "" then ok tt else is_allowed (node_engine pkg) config.allowed_engines

unfoldable pub validate_build_script : PackageJson → Build → Result String (Unit {0})
validate_build_script pkg build =
    if build.build_command == ""
    then err "build command is required"
    else elim (lookup build.build_command pkg.scripts) [
      | none ↦
          err ("build command '" <> build.build_command <> "' not found in package.json scripts")
      | some script ↦ ok tt
    ]

-- 100MB
abbrev pub max_size : ℕ
max_size = 100 * 1024 * 1024

module _ {W : Type 0} (os : Os W) (path_of : String → FilePath)
    (unmarshal : String → Result String PackageJson) where
  unfoldable pub read_package_json : Build → Action W PackageJson
  read_package_json build = elim (source_dir build) [
    | none ↦ raise "sourceDir not found in builder config"
    | some dir ↦ do
      data_read ←
          wrap "failed to read package.json" (os.read_file (path_of dir ++ ("package.json" ∷ [])))
      lift (map_err (λ e. "invalid package.json: " <> e) (unmarshal data_read))
  ]

  unfoldable pub validate_artifact : FilePath → Action W (Unit {0})
  validate_artifact path = do
    wrap "artifact not found" (os.stat path)
    info ← wrap "failed to get artifact info" (os.stat path)
    if ltb max_size info.size then raise "artifact size exceeds maximum allowed size" else pure tt

  unfoldable pub validate_build_config : NodeJsConfig → Build → Action W (Unit {0})
  validate_build_config config build = do
    pkg ← read_package_json build
    lift (validate_node_version config pkg)
    lift (validate_build_script pkg build)

  -- `NewNodeJSValidator`
  abbrev pub nodejs_validator : NodeJsConfig → Validator W
  nodejs_validator config = record {
    validate_build_config = validate_build_config config;
    validate_artifact = validate_artifact;
  }
