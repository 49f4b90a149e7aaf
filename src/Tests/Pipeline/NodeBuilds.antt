-- ===== src/Tests/Pipeline/NodeBuilds.antt =====
-- Builds by the NodeJS builder of internal/pipeline/builder/nodejs_builder.go on a small machine, and
-- the theorems about it and about `executeBuild` applied to them.
use chef_infra.Base.{String, string_dec, true, false, ◌≡◌, ◌⊎◌, All, refl, List, [], ◌∷◌}
use chef_infra.Base.Result.{Result, ok, err}
use chef_infra.Pipeline.Config.{FilePath}
use chef_infra.Pipeline.Types.{BuildResult}
use chef_infra.Pipeline.Interfaces.{Options, Deps}
use chef_infra.Pipeline.BuildContext.{new_build_context, cleanup_context}
use chef_infra.Pipeline.NodeJsValidator.{source_dir, nodejs_validator, validate_artifact}
use chef_infra.Base.Dict.{lookup}
use chef_infra.Pipeline.NodeJsBuilder.Outside.{Message}
use chef_infra.Pipeline.NodeJsBuilder.{
  image_tag, get_image_tag, process_build_output, copy_file, visit_source, copy_source_files,
  prepare_build_directory, create_dockerfile, create_build_context, create_container, copy_artifact,
  create_artifact_from_container, run_build, cleanup,
}
use chef_infra.Pipeline.NodeJsBuilder.Containers.{create_artifact_from_container-exists}
use chef_infra.Pipeline.NodeJsBuilder.Output.{IsFine, FirstError, process_build_output_lem}
use chef_infra.Pipeline.Static.{
  new_static_config, static_deployer, create_backup, extract_artifact, deploy,
}
use chef_infra.Pipeline.Goroutine.{make_directories, builder_options}
use chef_infra.Pipeline.Wiring.{
  create_builder, new_nodejs_builder, builder_factory, new_deployer, provide_deps,
}
use chef_infra.Pipeline.Execution.{
  record_success, deploy_or_roll_back, run_builder, with_new_builder, build_in, execute_build,
  run_goroutine,
}
use chef_infra.Pipeline.Execution.Artifacts.{run_goroutine-artifact}
use chef_infra.Tests.Pipeline.Samples.{config, nodejs_config, deploy_config, build}
use chef_infra.Tests.Pipeline.Machine.{
  Machine, machine, platform, os, files, docker, tar, is_missing, one_name, no_package,
  os-HasRemoval, docker-IsDaemon, starts,
}

-- What the wiring provides on the machine.
abbrev deps : Deps Machine
deps = record {
  os = os;
  factory = builder_factory platform config;
  deployer = static_deployer os tar is_missing (new_static_config deploy_config);
  validator = nodejs_validator os one_name no_package nodejs_config;
}

abbrev options : Options
options = record {
  work_dir = "chef" ∷ "builds" ∷ "b1" ∷ [];
  cache_dir = "chef" ∷ "cache" ∷ "b1" ∷ [];
  environment = [];
  timeout = 0;
}

abbrev artifact : FilePath
artifact = "chef" ∷ "builds" ∷ "b1" ∷ "artifacts" ∷ "b1.tar.gz" ∷ []

run_goroutine-artifact_example :
    os-HasRemoval.exists
      (run_goroutine deps config (build "b1") machine).1
      (run_goroutine deps config (build "b1") machine).0.artifact_path
    ≡ false
unfolding run_goroutine execute_build build_in with_new_builder run_builder deploy_or_roll_back
    record_success new_build_context cleanup_context make_directories builder_options create_builder
    new_nodejs_builder new_deployer provide_deps run_build cleanup image_tag get_image_tag
    process_build_output copy_file visit_source copy_source_files prepare_build_directory
    create_dockerfile create_build_context create_container copy_artifact
    create_artifact_from_container validate_artifact create_backup extract_artifact deploy starts
    string_dec new_static_config source_dir lookup
run_goroutine-artifact_example =
    run_goroutine-artifact platform config deps machine refl os-HasRemoval (λ path u. refl)
      (build "b1") machine refl

create_artifact_from_container-exists_example :
    docker-IsDaemon.exists
      (create_artifact_from_container os files docker one_name nodejs_config options true
        (build "b1")
        machine).1
    ≡ docker-IsDaemon.exists machine
create_artifact_from_container-exists_example =
    create_artifact_from_container-exists os files docker one_name nodejs_config options
      docker-IsDaemon true (λ id v. refl) (build "b1") machine

abbrev result : BuildResult
result = record { success = true; artifact_path = artifact; image_id = "chef-p:b1" }

abbrev output : List (Result String Message)
output =
    ok (record { stream = "Step 1"; error = ""; status = ""; id = "" })
    ∷ ok (record { stream = ""; error = "npm failed"; status = ""; id = "" })
    ∷ []

process_build_output_lem_example :
    ((process_build_output output ≡ ok tt) × All IsFine output)
    ⊎ ((e : String) × (process_build_output output ≡ err e) × FirstError output e)
process_build_output_lem_example = process_build_output_lem output
