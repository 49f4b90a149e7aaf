-- ===== src/Pipeline/Goroutine.antt =====
-- `executeBuild` of internal/pipeline/pipeline.go and the goroutine of `StartBuild` around it, as
-- the steps that other goroutines can come between. `Pc` names the statement that comes next, with
-- the local variables that the rest needs; the deferred calls are the steps from `cleaning_builder`
-- on. The assignments to one build between two calls are one step, and a call of `time.Now` is one
-- with the assignment of its result. Logging is left out.
pub mod Statuses
use chef_infra.Base.{ℕ, String, ◌<>◌, Bool, true, false, Option, none, some}
use chef_infra.Base.Result.{Result, ok, err}
use chef_infra.Base.Exec.{◌>>◌}
use chef_infra.Pipeline.Config.{PipelineConfig}
use chef_infra.Pipeline.Types.{Build, BuildStatus, building, success, failed, BuildResult}
use chef_infra.Pipeline.Interfaces.{Action, Builder, Options, Deps}
use chef_infra.Pipeline.BuildContext.{BuildContext, wrap, new_build_context, cleanup_context}

-- The error that a step returned, if any, is carried to the end.
pub data Pc (W : Type 0) : Type 0 where
  entering storing_cancel making_context finished : Pc W
  making_directories creating_builder : BuildContext → Pc W
  running_builder : BuildContext → Builder W → Pc W
  validating_artifact recording_success : BuildContext → Builder W → BuildResult → Pc W
  completing deploying : BuildContext → Builder W → Pc W
  rolling_back : BuildContext → Builder W → String → Pc W
  cleaning_builder : BuildContext → Builder W → Option String → Pc W
  cleaning_context : BuildContext → Option String → Pc W
  reporting : Option String → Pc W

-- A goroutine with the build that it works on; `is_cancelled` tells that `buildCtx` is cancelled.
pub record Task (W : Type 0) : Type 0 where
  pub build : Build
  pub pc : Pc W
  pub is_cancelled : Bool

module _ {W : Type 0} (deps : Deps W) (config : PipelineConfig) where
  open deps use {os, factory, deployer, validator}

  -- The second round of `os.MkdirAll` calls.
  unfoldable pub make_directories : BuildContext → Action W (Unit {0})
  make_directories bc =
      wrap "failed to create build directory" (os.mkdir_all bc.build_dir)
      >> wrap "failed to create artifact directory" (os.mkdir_all bc.artifact_dir)
      >> wrap "failed to create cache directory" (os.mkdir_all bc.cache_dir)

  unfoldable pub builder_options : BuildContext → Options
  builder_options bc = record {
    work_dir = bc.build_dir;
    cache_dir = bc.cache_dir;
    environment = config.nodejs.env_vars;
    timeout = 0;
  }

  -- The statement at the given place.
  step_at : Pc W → Task W → W → Task W × W
  unfolding make_directories builder_options
  step_at entering t w =
      (record t { build = record t.build { status = building }; pc = storing_cancel }, w)
  step_at storing_cancel t w =
      (record t { build = record t.build { cancel_func = true }; pc = making_context }, w)
  step_at making_context t w =
      let (r, w') =
        wrap "failed to create build context" (new_build_context os config.build_dir t.build.id)
          w in
      elim r [
        | ok bc ↦ (record t { pc = making_directories bc }, w')
        | err e ↦ (record t { pc = reporting (some e); is_cancelled = true }, w')
      ]
  step_at (making_directories bc) t w =
      let (r, w') = make_directories bc w in
      elim r [
        | ok _ ↦ (record t { pc = creating_builder bc }, w')
        | err e ↦ (record t { pc = cleaning_context bc (some e) }, w')
      ]
  step_at (creating_builder bc) t w =
      let (r, w') =
        wrap "failed to create builder"
          (factory.create_builder t.build.framework (builder_options bc)) w in
      elim r [
        | ok b ↦ (record t { pc = running_builder bc b }, w')
        | err e ↦ (record t { pc = cleaning_context bc (some e) }, w')
      ]
  step_at (running_builder bc b) t w =
      let (r, w') = wrap "build failed" (b.build t.is_cancelled t.build) w in
      elim r [
        | ok result ↦ (record t { pc = validating_artifact bc b result }, w')
        | err e ↦ (record t { pc = cleaning_builder bc b (some e) }, w')
      ]
  step_at (validating_artifact bc b result) t w =
      let (r, w') =
        wrap "artifact validation failed" (validator.validate_artifact result.artifact_path) w in
      elim r [
        | ok _ ↦ (record t { pc = recording_success bc b result }, w')
        | err e ↦ (record t { pc = cleaning_builder bc b (some e) }, w')
      ]
  step_at (recording_success bc b result) t w = (
    record t {
      build = record t.build {
        status = success;
        artifact_path = result.artifact_path;
        image_id = result.image_id;
      };
      pc = completing bc b;
    },
    w,
  )
  step_at (completing bc b) t w =
      let (complete_time, w') = os.now w in
      (
        record t {
          build = record t.build { complete_time = some complete_time };
          pc = deploying bc b;
        },
        w',
      )
  step_at (deploying bc b) t w =
      let (r, w') = wrap "deployment failed" (deployer.deploy t.build) w in
      elim r [
        | ok _ ↦ (record t { pc = cleaning_builder bc b none }, w')
        | err e ↦ (record t { pc = rolling_back bc b e }, w')
      ]
  step_at (rolling_back bc b e) t w =
      (record t { pc = cleaning_builder bc b (some e) }, (deployer.rollback t.build w).1)
  step_at (cleaning_builder bc b e) t w = (record t { pc = cleaning_context bc e }, (b.cleanup w).1)
  step_at (cleaning_context bc e) t w =
      (record t { pc = reporting e; is_cancelled = true }, (cleanup_context os bc w).1)
  step_at (reporting none) t w = (record t { pc = finished }, w)
  step_at (reporting (some e)) t w =
      (record t { build = record t.build { status = failed; error_message = e }; pc = finished }, w)
  step_at finished t w = (t, w)

  unfoldable pub step : Task W → W → Task W × W
  unfolding step_at
  step t w = step_at t.pc t w
