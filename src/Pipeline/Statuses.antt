-- ===== src/Pipeline/Statuses.antt =====
-- How the status of a build follows its goroutine through internal/pipeline/pipeline.go, under any
-- interleaving of goroutines, starts and cancellations.
use chef_infra.Base.{
  ℕ, ◌≡◌, ◌⊎◌, inl, inr, some, Option-cases, Bool-cases, List, [], ◌∷◌, String, All, All-get_elem?,
  All-set, All-append_one, get_elem?, arith,
}
use mathlib.Core.Path.{subst}
use chef_infra.Pipeline.Builds.{Cancelled, untouched, touched, cancel_at-Cancelled}
use chef_infra.Pipeline.Goroutine.Statuses.{InStep, Agrees, Agrees-cancelled, step-InStep}
use chef_infra.Pipeline.Config.{PipelineConfig}
use chef_infra.Pipeline.Types.{Build, success, failed, cancelled}
use chef_infra.Pipeline.Interfaces.{Deps}
use chef_infra.Pipeline.Goroutine.{finished, Task}
use chef_infra.Pipeline.{
  Pipeline, Event, start, cancel, run, go_on, new_pipeline, new_task, waits, start_build,
  begin_cancel, go_on_cancel, run_task, perform, perform_all,
}

module _ {W : Type 0} (deps : Deps W) (config : PipelineConfig) where
  start_build-InStep :
      (b : Build) (p : Pipeline W)
      → All InStep p.tasks
      → All InStep (start_build deps config b p).1.tasks
  unfolding start_build
  start_build-InStep b p h = ground (arith, All-append_one InStep p.tasks (new_task b) h tt)

  Cancelled-InStep :
      (i : ℕ) (tasks tasks' : List (Task W))
      → Cancelled i tasks tasks'
      → All InStep tasks
      → All InStep tasks'
  Cancelled-InStep i tasks _ untouched h = h
  Cancelled-InStep i tasks _ (touched t t' at_i same_id same_pc (inl same)) h =
      let t_in_step : Agrees t.pc t.build.status = All-get_elem? InStep tasks i t h at_i in
      All-set InStep tasks i t' h (rw (same_pc, same) t_in_step)
  Cancelled-InStep i tasks _ (touched t t' at_i same_id same_pc (inr now)) h =
      All-set InStep tasks i t' h (rw now (Agrees-cancelled t'.pc))

  begin_cancel-tasks :
      (id : String) (p : Pipeline W) → (begin_cancel deps config id p).tasks ≡ p.tasks
  unfolding begin_cancel
  begin_cancel-tasks id p = ground arith

  go_on_cancel-InStep :
      (p : Pipeline W) → All InStep p.tasks → All InStep (go_on_cancel deps config p).tasks
  unfolding go_on_cancel
  go_on_cancel-InStep p h = elim (Option-cases p.canceller) [
    | inl free ↦ rw (free, go_on_cancel) h
    | inr (c, at_work) ↦
        rw (at_work, go_on_cancel)
          (Cancelled-InStep c.task p.tasks _ (cancel_at-Cancelled deps config c.pc c.task p) h)
  ]

  run_task-InStep :
      (i : ℕ) (p : Pipeline W) → All InStep p.tasks → All InStep (run_task deps config i p).tasks
  unfolding run_task
  run_task-InStep i p h = elim (Option-cases (get_elem? p.tasks i)) [
    | inl missing ↦ rw (missing, run_task) h
    | inr (t, found) ↦ elim (Bool-cases (waits t.pc p.canceller)) [
      | inl blocked ↦ rw (found, blocked, run_task) h
      | inr free ↦
          rw (found, free, run_task)
            (All-set InStep p.tasks i _ h
              (step-InStep deps config t p.world (All-get_elem? InStep p.tasks i t h found)))
    ]
  ]

  pub perform-InStep :
      (e : Event) (p : Pipeline W) → All InStep p.tasks → All InStep (perform deps config e p).tasks
  unfolding perform
  perform-InStep (start b) p h = elim (Option-cases p.canceller) [
    | inl free ↦ rw (free, perform) (start_build-InStep b p h)
    | inr (c, at_work) ↦ rw (at_work, perform) h
  ]
  perform-InStep (cancel id) p h = rw (begin_cancel-tasks id p) h
  perform-InStep go_on p h = go_on_cancel-InStep p h
  perform-InStep (run i) p h = run_task-InStep i p h

  pub perform_all-InStep :
      (es : List Event) (p : Pipeline W)
      → All InStep p.tasks
      → All InStep (perform_all deps config es p).tasks
  unfolding perform_all
  perform_all-InStep [] p h = h
  perform_all-InStep (e ∷ es) p h = perform_all-InStep es _ (perform-InStep e p h)

  -- In every state that a new pipeline reaches, by any builds started, any cancellations and any
  -- scheduling, a build whose goroutine has ended has the status success, failed or cancelled: none
  -- is left as pending or as building.
  pub finished_status :
      (w : W) (es : List Event) (i : ℕ) (t : Task W)
      → get_elem? (perform_all deps config es (new_pipeline w)).tasks i ≡ some t
      → t.pc ≡ finished
      → (t.build.status ≡ success) ⊎ (t.build.status ≡ failed) ⊎ (t.build.status ≡ cancelled)
  finished_status w es i t found ended =
      let h : InStep t =
        All-get_elem? InStep _ i t (perform_all-InStep es (new_pipeline w) tt) found in
      subst (λ pc. Agrees pc t.build.status) ended h
