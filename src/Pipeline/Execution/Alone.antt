-- ===== src/Pipeline/Execution/Alone.antt =====
-- A goroutine that runs undisturbed does what `executeBuild` says.
use chef_infra.Base.{ℕ, zero, suc, String, true, false, some, inl, inr, ◌≡◌, refl, ◌∙◌, ◌<>◌, arith}
use chef_infra.Base.Result.{Result, err, Result-cases}
use chef_infra.Base.Exec.{◌>>◌}
use chef_infra.Pipeline.Config.{PipelineConfig}
use chef_infra.Pipeline.Types.{Build, building, failed as failed_status}
use chef_infra.Pipeline.Interfaces.{Builder, Deps}
use chef_infra.Pipeline.BuildContext.{BuildContext, new_build_context}
use chef_infra.Pipeline.Goroutine.{
  reporting, validating_artifact, recording_success, running_builder, making_directories,
  making_context, storing_cancel, creating_builder, cleaning_builder, cleaning_context, step,
  make_directories, builder_options,
}
use chef_infra.Pipeline.{new_task}
use chef_infra.Pipeline.Execution.{
  record_success, deploy_or_roll_back, run_builder, with_new_builder, build_in, execute_build,
  run_goroutine,
}
use chef_infra.Pipeline.Execution.Steps.{
  run_alone, at, ended, run_alone-ended, run_alone-step, goes_on, run_alone-recording_success,
  run_alone-cleaning_builder, run_alone-cleaning_context, after_context, after_builder,
}

module _ {W : Type 0} (deps : Deps W) (config : PipelineConfig) where
  open deps use {os}

  run_alone-running_builder :
      (n : ℕ) (bc : BuildContext) (b : Builder W) (build : Build) (w : W)
      → run_alone deps config
          (suc (suc (suc (suc (suc (suc (suc (suc (suc n)))))))))
          (at deps config (running_builder bc b) build)
          w
        ≡ after_builder deps config bc b (run_builder deps config b (build, w))
  unfolding step run_builder
  run_alone-running_builder n bc b build w =
      let d = b.build false build w in
      let q = run_builder deps config b (build, w) in
      elim (Result-cases d.0) [
        | inr (e, failed) ↦
            let text = "build failed" <> (": " <> e) in
            goes_on deps config _ (after_builder deps config bc b) (running_builder bc b)
              (cleaning_builder bc b (some text)) build build w d.1 q (err text, (build, d.1))
              (ground arith) (run_alone-cleaning_builder deps config _ bc b (err text) build d.1)
              (ground arith)
        | inl (result, built) ↦
            let v = deps.validator.validate_artifact result.artifact_path d.1 in
            elim (Result-cases v.0) [
              | inr (e, refused) ↦
                  let text = "artifact validation failed" <> (": " <> e) in
                  goes_on deps config _ (after_builder deps config bc b) (running_builder bc b)
                    (validating_artifact bc b result) build build w d.1 q (err text, (build, v.1))
                    (ground arith)
                    (goes_on deps config _ (after_builder deps config bc b)
                      (validating_artifact bc b result) (cleaning_builder bc b (some text)) build
                      build d.1 v.1 (err text, (build, v.1)) (err text, (build, v.1)) (ground arith)
                      (run_alone-cleaning_builder deps config _ bc b (err text) build v.1) refl)
                    (ground arith)
              | inl (_, accepted) ↦
                  let rest =
                    (record_success deps config result >> deploy_or_roll_back deps config)
                      (build, v.1) in
                  goes_on deps config _ (after_builder deps config bc b) (running_builder bc b)
                    (validating_artifact bc b result) build build w d.1 q rest (ground arith)
                    (goes_on deps config _ (after_builder deps config bc b)
                      (validating_artifact bc b result) (recording_success bc b result) build build
                      d.1 v.1 rest rest (ground arith)
                      (run_alone-recording_success deps config n bc b result build v.1) refl)
                    (ground arith)
            ]
      ]

  run_alone-creating_builder :
      (n : ℕ) (bc : BuildContext) (build : Build) (w : W)
      → run_alone deps config
          (suc (suc (suc (suc (suc (suc (suc (suc (suc (suc n))))))))))
          (at deps config (creating_builder bc) build)
          w
        ≡ after_context deps config bc (with_new_builder deps config bc (build, w))
  unfolding step with_new_builder
  run_alone-creating_builder n bc build w =
      let c = deps.factory.create_builder build.framework (builder_options deps config bc) w in
      let q = with_new_builder deps config bc (build, w) in
      elim (Result-cases c.0) [
        | inr (e, failed) ↦
            let text = "failed to create builder" <> (": " <> e) in
            goes_on deps config _ (after_context deps config bc) (creating_builder bc)
              (cleaning_context bc (some text)) build build w c.1 q (err text, (build, c.1))
              (ground arith) (run_alone-cleaning_context deps config _ bc (err text) build c.1)
              (ground arith)
        | inl (b, created) ↦
            let r = run_builder deps config b (build, c.1) in
            let q' : Result String (Unit {0}) × (Build × W) = (r.0, (r.1.0, (b.cleanup r.1.1).1)) in
            goes_on deps config _ (after_context deps config bc) (creating_builder bc)
              (running_builder bc b) build build w c.1 q q' (ground arith)
              (run_alone-running_builder n bc b build c.1) (ground arith)
      ]

  run_alone-making_directories :
      (n : ℕ) (bc : BuildContext) (build : Build) (w : W)
      → run_alone deps config
          (suc (suc (suc (suc (suc (suc (suc (suc (suc (suc (suc n)))))))))))
          (at deps config (making_directories bc) build)
          w
        ≡ after_context deps config bc (build_in deps config bc (build, w))
  unfolding step build_in
  run_alone-making_directories n bc build w =
      let m = make_directories deps config bc w in
      let q = build_in deps config bc (build, w) in
      elim (Result-cases m.0) [
        | inr (e, failed) ↦
            goes_on deps config _ (after_context deps config bc) (making_directories bc)
              (cleaning_context bc (some e)) build build w m.1 q (err e, (build, m.1))
              (ground arith) (run_alone-cleaning_context deps config _ bc (err e) build m.1)
              (ground arith)
        | inl (_, made) ↦
            goes_on deps config _ (after_context deps config bc) (making_directories bc)
              (creating_builder bc) build build w m.1 q
              (with_new_builder deps config bc (build, m.1)) (ground arith)
              (run_alone-creating_builder n bc build m.1) (ground arith)
      ]

  -- The steps of a goroutine, with nothing in between, are `executeBuild` with what `StartBuild`
  -- does after it: at most 14 of them end the goroutine, in the build and the world that the
  -- sequential code leaves, deferred calls included.
  pub run_alone-run_goroutine :
      (build : Build) (w : W)
      → run_alone deps config 14 (new_task build) w ≡ (
        ended deps config (run_goroutine deps config build w).0,
        (run_goroutine deps config build w).1,
      )
  unfolding step run_goroutine execute_build
  run_alone-run_goroutine build w =
      let started = record build { status = building; cancel_func = true } in
      let c = new_build_context os config.build_dir build.id w in
      let answer = run_goroutine deps config build w in
      let first = record build { status = building } in
      run_alone-step deps config _ (new_task build) (at deps config storing_cancel first) w w _ refl
        (run_alone-step deps config _ (at deps config storing_cancel first)
          (at deps config making_context started) w w _ refl
          (elim (Result-cases c.0) [
            | inr (e, failed) ↦
                let text = "failed to create build context" <> (": " <> e) in
                let left = record started { status = failed_status; error_message = text } in
                run_alone-step deps config _ (at deps config making_context started)
                  (record { build = started; pc = reporting (some text); is_cancelled = true }) w
                  c.1 _ (ground arith)
                  (run_alone-step deps config _
                    (record { build = started; pc = reporting (some text); is_cancelled = true })
                    (ended deps config left) c.1 c.1 _ refl
                    (run_alone-ended deps config _ left c.1 ∙ ground arith))
            | inl (bc, made) ↦
                run_alone-step deps config _ (at deps config making_context started)
                  (at deps config (making_directories bc) started) w c.1 _ (ground arith)
                  (run_alone-making_directories zero bc started c.1 ∙ ground arith)
          ]))
