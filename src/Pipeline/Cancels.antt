-- ===== src/Pipeline/Cancels.antt =====
-- What `CancelBuild` of internal/pipeline/pipeline.go answers, and what callers see afterwards.
use chef_infra.Base.{◌≡◌, ◌↔◌, String, some, Option-cases, inl, inr, arith, get_elem?-set}
use chef_infra.Base.Result.{ok, err}
use chef_infra.Pipeline.Builds.{find_task_found, cancel_build_tasks}
use chef_infra.Pipeline.Config.{PipelineConfig}
use chef_infra.Pipeline.Types.{Build, building, cancelled}
use chef_infra.Pipeline.Interfaces.{Deps}
use chef_infra.Pipeline.{
  Pipeline, find_task, get_build, find_building, call_cancel, write_status, write_time,
  cancel_build,
}

module _ {W : Type 0} (deps : Deps W) (config : PipelineConfig) where
  -- `GetBuild` finds a build that is building.
  abbrev pub IsBusy : String → Pipeline W → Type 0
  IsBusy id p = (b : Build) × (get_build id p ≡ ok b) × (b.status ≡ building)

  cancel_build_iff :
      (id : String) (p : Pipeline W) → ((cancel_build deps config id p).0 ≡ ok tt) ↔ IsBusy id p
  unfolding cancel_build find_building get_build
  cancel_build_iff id p = elim (Option-cases (find_task id p)) [
    | inl missing ↦ (λ h. absurd (ground arith), λ (b, found, busy). absurd (ground arith))
    | inr ((i, t), there) ↦
        (λ h. (t.build, ground arith, ground arith), λ (b, found, busy). ground arith)
  ]

  cancel_build_failed :
      (id : String) (p : Pipeline W) (e : String)
      → (cancel_build deps config id p).0 ≡ err e
      → (cancel_build deps config id p).1 ≡ p
  unfolding cancel_build find_building
  cancel_build_failed id p e h = ground arith

  get_build-cancel_build :
      (id : String) (p : Pipeline W) (b : Build)
      → get_build id p ≡ ok b
      → b.status ≡ building
      → get_build id (cancel_build deps config id p).1
        ≡ ok (record b { status = cancelled; complete_time = some (deps.os.now p.world).0 })
  unfolding find_building get_build find_task
  get_build-cancel_build id p b found busy = elim (Option-cases (find_task id p)) [
    | inl missing ↦ absurd (ground arith)
    | inr ((i, t), there) ↦
        let (mapped, held) = find_task_found id p i t there in
        let t_b : t.build ≡ b = ground arith in
        let last = write_time (deps.os.now p.world).0 (write_status (call_cancel t)) in
        let written = get_elem?-set p.tasks i i last t held in
        let whole = cancel_build_tasks deps config id p i t (ground arith) held in
        rw (whole, ← t_b) (ground (arith, written, mapped, held, there, t_b, busy))
  ]

  -- `CancelBuild` succeeds exactly where `GetBuild` finds the build and it is building. Where it
  -- fails, nothing has changed. Where it succeeds, `GetBuild` then finds the same build, but
  -- cancelled, and complete at the time of the call.
  pub cancel_build_outcomes :
      (id : String) (p : Pipeline W)
      → (((cancel_build deps config id p).0 ≡ ok tt) ↔ IsBusy id p)
        × ((e : String)
            → (cancel_build deps config id p).0 ≡ err e
            → (cancel_build deps config id p).1 ≡ p)
        × ((b : Build)
            → get_build id p ≡ ok b
            → b.status ≡ building
            → get_build id (cancel_build deps config id p).1
              ≡ ok (record b { status = cancelled; complete_time = some (deps.os.now p.world).0 }))
  cancel_build_outcomes id p =
      (cancel_build_iff id p, cancel_build_failed id p, get_build-cancel_build id p)
