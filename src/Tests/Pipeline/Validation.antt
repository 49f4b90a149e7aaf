-- ===== src/Tests/Pipeline/Validation.antt =====
-- The validator of internal/pipeline/validator/nodejs_validator.go: runs, and its theorems applied.
use chef_infra.Base.{ℕ, String, some, [], ◌∷◌, ◌≡◌, refl, string_dec}
use chef_infra.Base.Result.{Result, ok, err}
use chef_infra.Base.Dict.{lookup}
use chef_infra.Pipeline.Config.{FilePath}
use chef_infra.Pipeline.Interfaces.{Deps}
use chef_infra.Pipeline.{start_build, new_pipeline}
use chef_infra.Pipeline.NodeJsValidator.{
  PackageJson, node_engine, is_allowed, source_dir, validate_node_version, validate_build_script,
  read_package_json, validate_build_config, nodejs_validator,
}
use chef_infra.Pipeline.NodeJsValidator.Acceptance.{SupportsNode, HasScript, start_build-validated}
use chef_infra.Tests.Pipeline.Samples.{os, deps, config, nodejs_config, build}

abbrev vite_project : PackageJson
vite_project = record {
  name = "p";
  version = "1.0.0";
  dependencies = [];
  scripts = ("build", "vite build") ∷ [];
  engines = some (("node", "20") ∷ []);
}

abbrev path_of : String → FilePath
path_of dir = dir ∷ []

abbrev unmarshal : String → Result String PackageJson
unmarshal content = ok vite_project

abbrev validated_deps : Deps ℕ
validated_deps = record deps { validator = nodejs_validator os path_of unmarshal nodejs_config }

unsupported :
    validate_node_version nodejs_config
      (record vite_project { engines = some (("node", ">=18") ∷ []) })
    ≡ err "unsupported node version: >=18"
unfolding validate_node_version is_allowed node_engine lookup string_dec
unsupported = refl

accepted : (start_build validated_deps config (build "a") (new_pipeline 0)).0 ≡ ok tt
unfolding start_build validate_build_config read_package_json source_dir validate_node_version
    validate_build_script is_allowed node_engine lookup string_dec
accepted = refl

start_build-validated_example :
    (pkg : PackageJson) × ((read_package_json os path_of unmarshal (build "a") 0).0 ≡ ok pkg)
    × SupportsNode nodejs_config pkg
    × HasScript pkg (build "a")
start_build-validated_example =
    start_build-validated os path_of unmarshal validated_deps config (build "a") (new_pipeline 0)
      refl accepted
