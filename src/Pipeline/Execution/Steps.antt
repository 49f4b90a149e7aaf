-- ===== src/Pipeline/Execution/Steps.antt =====
-- The steps of a goroutine from the recording of its success on, with nothing in between.
use chef_infra.Base.{
  ℕ, zero, suc, String, true, false, Option, none, some, inl, inr, ◌≡◌, refl, sym, ap, ◌∙◌, ◌<>◌,
  arith,
}
use chef_infra.Base.Result.{Result, ok, err, Result-cases}
use chef_infra.Base.Exec.{◌>>◌}
use chef_infra.Pipeline.Config.{PipelineConfig}
use chef_infra.Pipeline.Types.{Build, BuildResult, success}
use chef_infra.Pipeline.Interfaces.{Builder, Deps}
use chef_infra.Pipeline.BuildContext.{BuildContext, cleanup_context}
use chef_infra.Pipeline.Goroutine.{
  Pc, finished, rolling_back, recording_success, completing, deploying, cleaning_builder,
  cleaning_context, Task, step,
}
use chef_infra.Pipeline.Execution.{report, record_success, deploy_or_roll_back}

module _ {W : Type 0} (deps : Deps W) (config : PipelineConfig) where
  open deps use {os}

  -- So many steps of one goroutine, with nothing in between.
  unfoldable pub run_alone : ℕ → Task W → W → Task W × W
  run_alone zero t w = (t, w)
  run_alone (suc n) t w = let (t', w') = step deps config t w in run_alone n t' w'

  abbrev pub error_of : Result String (Unit {0}) → Option String
  error_of (ok _) = none
  error_of (err e) = some e

  abbrev pub at : Pc W → Build → Task W
  at pc build = record { build = build; pc = pc; is_cancelled = false }

  abbrev pub ended : Build → Task W
  ended build = record { build = build; pc = finished; is_cancelled = true }

  pub run_alone-ended :
      (n : ℕ) (build : Build) (w : W) → run_alone n (ended build) w ≡ (ended build, w)
  unfolding run_alone step
  run_alone-ended zero build w = refl
  run_alone-ended (suc n) build w = run_alone-ended n build w

  pub run_alone-cleaning_context :
      (n : ℕ) (bc : BuildContext) (r : Result String (Unit {0})) (build : Build) (w : W)
      → run_alone (suc (suc n)) (at (cleaning_context bc (error_of r)) build) w
        ≡ (ended (report deps config r build), (cleanup_context os bc w).1)
  unfolding run_alone step
  run_alone-cleaning_context n bc (ok _) build w = run_alone-ended n build _
  run_alone-cleaning_context n bc (err e) build w = run_alone-ended n _ _

  -- What follows the part that has a build context, and the part that has a builder.
  abbrev pub after_context : BuildContext → Result String (Unit {0}) × (Build × W) → Task W × W
  after_context bc (r, (build, w)) =
      (ended (report deps config r build), (cleanup_context os bc w).1)

  abbrev pub after_builder :
      BuildContext → Builder W → Result String (Unit {0}) × (Build × W) → Task W × W
  after_builder bc b (r, (build, w)) = after_context bc (r, (build, (b.cleanup w).1))

  pub run_alone-cleaning_builder :
      (n : ℕ) (bc : BuildContext) (b : Builder W) (r : Result String (Unit {0})) (build : Build)
      (w : W)
      → run_alone (suc (suc (suc n))) (at (cleaning_builder bc b (error_of r)) build) w
        ≡ after_builder bc b (r, (build, w))
  unfolding run_alone step
  run_alone-cleaning_builder n bc b r build w = run_alone-cleaning_context n bc r build _

  -- One step, and what follows it.
  pub run_alone-step :
      (n : ℕ) (t u : Task W) (w x : W) (r : Task W × W)
      → step deps config t w ≡ (u, x)
      → run_alone n u x ≡ r
      → run_alone (suc n) t w ≡ r
  unfolding run_alone
  run_alone-step n t u w x r e rest = rw e rest

  pub run_alone-deploying :
      (n : ℕ) (bc : BuildContext) (b : Builder W) (build : Build) (w : W)
      → run_alone (suc (suc (suc (suc (suc n))))) (at (deploying bc b) build) w
        ≡ after_builder bc b (deploy_or_roll_back deps config (build, w))
  unfolding step deploy_or_roll_back
  run_alone-deploying n bc b build w =
      let d = deps.deployer.deploy build w in
      elim (Result-cases d.0) [
        | inl (x, done) ↦
            let e : deploy_or_roll_back deps config (build, w) ≡ (ok tt, (build, d.1)) =
              rw (done, deploy_or_roll_back) in
            run_alone-step _ (at (deploying bc b) build) (at (cleaning_builder bc b none) build) w
              d.1 _ (ground arith)
              (run_alone-cleaning_builder (suc n) bc b (ok tt) build d.1
                ∙ ap (after_builder bc b) (sym e))
        | inr (e, failed) ↦
            let text = "deployment failed" <> (": " <> e) in
            let w' = (deps.deployer.rollback build d.1).1 in
            let back : deploy_or_roll_back deps config (build, w) ≡ (err text, (build, w')) =
              rw (failed, deploy_or_roll_back) in
            run_alone-step _ (at (deploying bc b) build) (at (rolling_back bc b text) build) w d.1 _
              (ground arith)
              (run_alone-step _ (at (rolling_back bc b text) build)
                (at (cleaning_builder bc b (some text)) build) d.1 w' _ refl
                (run_alone-cleaning_builder n bc b (err text) build w'
                  ∙ ap (after_builder bc b) (sym back)))
      ]

  -- One step that goes on, where the code in `q` goes on alike and `f` tells what follows it.
  pub goes_on :
      (n : ℕ) (f : Result String (Unit {0}) × (Build × W) → Task W × W) (pc pc' : Pc W)
      (build build' : Build) (w w' : W) (q q' : Result String (Unit {0}) × (Build × W))
      → step deps config (at pc build) w ≡ (at pc' build', w')
      → run_alone n (at pc' build') w' ≡ f q'
      → q ≡ q'
      → run_alone (suc n) (at pc build) w ≡ f q
  goes_on n f pc pc' build build' w w' q q' e rest same =
      run_alone-step n (at pc build) (at pc' build') w w' (f q) e (rest ∙ ap f (sym same))

  pub run_alone-recording_success :
      (n : ℕ) (bc : BuildContext) (b : Builder W) (result : BuildResult) (build : Build) (w : W)
      → run_alone
          (suc (suc (suc (suc (suc (suc (suc n)))))))
          (at (recording_success bc b result) build)
          w
        ≡ after_builder bc b
            ((record_success deps config result >> deploy_or_roll_back deps config) (build, w))
  unfolding step record_success
  run_alone-recording_success n bc b result build w =
      let written = (record_success deps config result (build, w)).1 in
      let succeeded = record build {
        status = success;
        artifact_path = result.artifact_path;
        image_id = result.image_id;
      } in
      run_alone-step _ (at (recording_success bc b result) build) (at (completing bc b) succeeded) w
        w _ refl
        (run_alone-step _ (at (completing bc b) succeeded) (at (deploying bc b) written.0) w
          written.1 _ refl (run_alone-deploying n bc b written.0 written.1))
