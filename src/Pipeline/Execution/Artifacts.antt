-- ===== src/Pipeline/Execution/Artifacts.antt =====
-- What is left of the artifact of a build that has ended, with the parts that Pipeline/Wiring
-- provides.
use chef_infra.Base.{String, Bool, true, false, ◌++◌, ◌≡◌, inl, inr, arith}
use chef_infra.Base.Result.{ok, Result-cases}
use chef_infra.Pipeline.Config.{FilePath, Under, PipelineConfig}
use chef_infra.Pipeline.Types.{Build, BuildResult, building, success}
use chef_infra.Pipeline.Interfaces.{Os, Builder, Factory, Options, Deps}
use chef_infra.Pipeline.BuildContext.{BuildContext, new_build_context, cleanup_context}
use chef_infra.Pipeline.Goroutine.{make_directories, builder_options}
use chef_infra.Pipeline.Wiring.{Platform, builder_factory, new_deployer, provide_deps}
use chef_infra.Pipeline.Wiring.Frameworks.{create_builder-Under}
use chef_infra.Pipeline.Execution.{
  record_success, deploy_or_roll_back, run_builder, with_new_builder, build_in, execute_build,
  run_goroutine,
}

-- What is documented of `os.RemoveAll`: where it succeeds, nothing is left at the path or below.
pub record HasRemoval {W : Type 0} (os : Os W) : Type 0 where
  pub exists : W → FilePath → Bool
  pub removed :
      (path rest : FilePath) (w : W)
      → (os.remove_all path w).0 ≡ ok tt
      → exists (os.remove_all path w).1 (path ++ rest) ≡ false

-- The results of a factory's builders lie in their work directories.
abbrev KeepsInside : {W : Type 0} → Factory W → Type 0
KeepsInside {W} factory =
    (framework : String) (options : Options) (builder : Builder W) (w : W)
    → (factory.create_builder framework options w).0 ≡ ok builder
    → (ctx : Bool) (build : Build) (result : BuildResult) (v : W)
    → (builder.build ctx build v).0 ≡ ok result
    → Under options.work_dir result.artifact_path

module _ {W : Type 0} (deps : Deps W) (config : PipelineConfig) where
  run_builder_ok :
      (builder : Builder W) (build : Build) (w : W)
      → (run_builder deps config builder (build, w)).0 ≡ ok tt
      → (result : BuildResult) × ((builder.build false build w).0 ≡ ok result)
        × ((run_builder deps config builder (build, w)).1.0.artifact_path ≡ result.artifact_path)
  unfolding run_builder record_success deploy_or_roll_back
  run_builder_ok builder build w h = elim (Result-cases (builder.build false build w).0) [
    | inr (e, broke) ↦ absurd (ground arith)
    | inl (result, built) ↦ (result, built, ground arith)
  ]

  module _ (inside : KeepsInside deps.factory) where
    with_new_builder-Under :
        (bc : BuildContext) (build : Build) (w : W)
        → (with_new_builder deps config bc (build, w)).0 ≡ ok tt
        → Under bc.build_dir (with_new_builder deps config bc (build, w)).1.0.artifact_path
    unfolding with_new_builder builder_options
    with_new_builder-Under bc build w h =
        let options = builder_options deps config bc in
        let c = deps.factory.create_builder build.framework options w in
        elim (Result-cases c.0) [
          | inr (e, broke) ↦ absurd (ground arith)
          | inl (builder, made) ↦
              let (result, built, path) = run_builder_ok builder build c.1 (ground arith) in
              let (rest, below) =
                inside build.framework options builder w made false build result c.1 built in
              (rest, ground arith)
        ]

    build_in-Under :
        (bc : BuildContext) (build : Build) (w : W)
        → (build_in deps config bc (build, w)).0 ≡ ok tt
        → Under bc.build_dir (build_in deps config bc (build, w)).1.0.artifact_path
    unfolding build_in
    build_in-Under bc build w h =
        let m = make_directories deps config bc w in
        elim (Result-cases m.0) [
          | inr (e, broke) ↦ absurd (ground arith)
          | inl (_, made) ↦
              let (rest, below) = with_new_builder-Under bc build m.1 (ground arith) in
              (rest, ground arith)
        ]

    module _ (K : HasRemoval deps.os)
        (removes : (path : FilePath) (v : W) → (deps.os.remove_all path v).0 ≡ ok tt) where
      run_goroutine-gone :
          (build : Build) (w : W)
          → (run_goroutine deps config build w).0.status ≡ success
          → K.exists
              (run_goroutine deps config build w).1
              (run_goroutine deps config build w).0.artifact_path
            ≡ false
      unfolding run_goroutine execute_build cleanup_context
      run_goroutine-gone build w h =
          let started = record build { status = building; cancel_func = true } in
          let c = new_build_context deps.os config.build_dir build.id w in
          elim (Result-cases c.0) [
            | inr (e, broke) ↦ absurd (ground arith)
            | inl (bc, made) ↦
                let q = build_in deps config bc (started, c.1) in
                elim (Result-cases q.0) [
                  | inr (e, broke) ↦ absurd (ground arith)
                  | inl (_, fine) ↦
                      let (rest, below) = build_in-Under bc started c.1 fine in
                      let gone = K.removed bc.build_dir rest q.1.1 (removes bc.build_dir q.1.1) in
                      ground arith
                ]
          ]

module _ {W : Type 0} (X : Platform W) (config : PipelineConfig) where
  provide_deps_ok :
      (deps : Deps W) (w : W)
      → (provide_deps X config w).0 ≡ ok deps
      → (deps.os ≡ X.os) × (deps.factory ≡ builder_factory X config)
  unfolding provide_deps
  provide_deps_ok deps w h = elim (Result-cases (new_deployer X config.deploy w).0) [
    | inr (e, broke) ↦ absurd (ground arith)
    | inl (deployer, made) ↦ (ground arith, ground arith)
  ]

  -- With the provided parts, where removals succeed, a build whose goroutine runs undisturbed and
  -- ends with the status success names an artifact that no longer exists: the last deferred call
  -- removes the directory that it lies in.
  pub run_goroutine-artifact :
      (deps : Deps W) (v : W)
      → (provide_deps X config v).0 ≡ ok deps
      → (K : HasRemoval deps.os)
      → ((path : FilePath) (u : W) → (deps.os.remove_all path u).0 ≡ ok tt)
      → (build : Build) (w : W) → (run_goroutine deps config build w).0.status ≡ success
      → K.exists
          (run_goroutine deps config build w).1
          (run_goroutine deps config build w).0.artifact_path
        ≡ false
  run_goroutine-artifact deps v provided K removes build w h =
      let factory = (provide_deps_ok deps v provided).1 in
      run_goroutine-gone deps config (rw factory (create_builder-Under X config)) K removes build w
        h
