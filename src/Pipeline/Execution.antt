-- ===== src/Pipeline/Execution.antt =====
-- `executeBuild` of internal/pipeline/pipeline.go as it is written, for a goroutine that no other
-- one comes between: its state is the build and the world, and a deferred call is `deferred`. The
-- steps of Pipeline/Goroutine are the same code cut at each place where another one may come in.
pub mod Steps
pub mod Alone
pub mod Artifacts
use chef_infra.Base.{String, Bool, true, false, some}
use chef_infra.Base.Result.{Result, ok, err}
use chef_infra.Base.Exec.{Exec, pure, raise, attempt, ◌>>=◌, ◌>>◌}
use chef_infra.Pipeline.Config.{PipelineConfig}
use chef_infra.Pipeline.Types.{Build, BuildResult, building, success, failed}
use chef_infra.Pipeline.Interfaces.{Action, Builder, Deps}
use chef_infra.Pipeline.BuildContext.{BuildContext, wrap, new_build_context, cleanup_context}
use chef_infra.Pipeline.Goroutine.{make_directories, builder_options}

-- The build that the goroutine writes, and the world.
abbrev pub Run : Type 0 → Type 0 → Type 0
Run W A = Exec String (Build × W) A

module _ {W : Type 0} where
  abbrev pub on_world : {A : Type 0} → Action W A → Run W A
  on_world m (build, w) = ((m w).0, (build, (m w).1))

  abbrev pub with_build : {A : Type 0} → (Build → Action W A) → Run W A
  with_build m (build, w) = on_world (m build) (build, w)

  abbrev pub assign : (Build → Build) → Run W (Unit {0})
  assign f (build, w) = (ok tt, (f build, w))

  -- `defer`: the call is made at the end in any case, and its error is only logged.
  abbrev pub deferred : {A : Type 0} → Run W (Unit {0}) → Run W A → Run W A
  deferred later m s = ((m s).0, (later (m s).1).1)

module _ {W : Type 0} (deps : Deps W) (config : PipelineConfig) where
  open deps use {os, factory, deployer, validator}

  -- What is written once the artifact is accepted.
  unfoldable pub record_success : BuildResult → Run W (Unit {0})
  record_success result (build, w) =
      let (complete_time, w') = os.now w in
      (
        ok tt,
        (
          record build {
            status = success;
            artifact_path = result.artifact_path;
            image_id = result.image_id;
            complete_time = some complete_time;
          },
          w',
        ),
      )

  unfoldable pub deploy_or_roll_back : Run W (Unit {0})
  deploy_or_roll_back = do
    deployed ←
        attempt {E' = String}
          (with_build (λ build. wrap "deployment failed" (deployer.deploy build)))
    elim deployed [
      | ok _ ↦ pure tt
      | err e ↦ do attempt {E' = String} (with_build deployer.rollback); raise e
    ]

  -- From the builder's call on.
  unfoldable pub run_builder : Builder W → Run W (Unit {0})
  run_builder builder = do
    result ← with_build (λ build. wrap "build failed" (builder.build false build))
    on_world (wrap "artifact validation failed" (validator.validate_artifact result.artifact_path))
    record_success result
    deploy_or_roll_back

  -- From the call of the factory on.
  unfoldable pub with_new_builder : BuildContext → Run W (Unit {0})
  with_new_builder bc = do
    builder ← with_build (λ build.
        wrap "failed to create builder"
          (factory.create_builder build.framework (builder_options deps config bc)))
    deferred (on_world builder.cleanup) (run_builder builder)

  -- From the directories on.
  unfoldable pub build_in : BuildContext → Run W (Unit {0})
  build_in bc = do on_world (make_directories deps config bc); with_new_builder bc

  unfoldable pub execute_build : Run W (Unit {0})
  execute_build = do
    assign (λ build. record build { status = building })
    assign (λ build. record build { cancel_func = true })
    bc ← with_build (λ build.
        wrap "failed to create build context" (new_build_context os config.build_dir build.id))
    deferred (on_world (cleanup_context os bc)) (build_in bc)

  -- What the goroutine does with the error.
  abbrev report : Result String (Unit {0}) → Build → Build
  report (ok _) build = build
  report (err e) build = record build { status = failed; error_message = e }

  -- The goroutine of `StartBuild`, undisturbed.
  unfoldable pub run_goroutine : Build → W → Build × W
  run_goroutine build w = let (r, (build', w')) = execute_build (build, w) in (report r build', w')
