-- ===== src/Pipeline/Finality.antt =====
-- That internal/pipeline/pipeline.go lets a build alone once its goroutine has ended, but for a call
-- of `CancelBuild` that found it building before.
use chef_infra.Base.{
  ℕ, ◌≡◌, inl, inr, some, Option-cases, Bool-cases, List, [], ◌∷◌, String, All, All-get_elem?,
  get_elem?, get_elem?-set, get_elem?-append_one, get_elem?-lt_length, arith, Bool, false, nat_eq,
  none, set, refl,
}
use mathlib.Core.Path.{subst}
use chef_infra.Base.Result.{Result-cases}
use chef_infra.Pipeline.Builds.{
  find_task_found, find_building_ok, Cancelled, untouched, touched, cancel_at-Cancelled,
}
use chef_infra.Pipeline.Config.{PipelineConfig}
use chef_infra.Pipeline.Types.{Build, failed, cancelled}
use chef_infra.Pipeline.Interfaces.{Deps}
use chef_infra.Pipeline.Goroutine.{finished, reporting, Task, step}
use chef_infra.Pipeline.Goroutine.Statuses.{InStep, Agrees, IsFinal}
use chef_infra.Pipeline.Statuses.{perform-InStep, perform_all-InStep}
use chef_infra.Pipeline.{
  Pipeline, Event, start, cancel, run, go_on, writing_status, new_pipeline, new_task, is_building,
  waits, find_building, start_build, begin_cancel, cancel_at, update_task, write_status, write_time,
  go_on_cancel, run_task, perform, perform_all,
}

-- A call of `CancelBuild` is at work on the build of goroutine `i`.
unfoldable pub is_cancelling : {W : Type 0} → ℕ → Pipeline W → Bool
is_cancelling i p = elim p.canceller [ none ↦ false | some c ↦ nat_eq c.task i ]

module _ {W : Type 0} (deps : Deps W) (config : PipelineConfig) where
  -- A start leaves the goroutines that are there.
  pub start_build-get_elem? :
      (b : Build) (p : Pipeline W) (i : ℕ) (t : Task W)
      → get_elem? p.tasks i ≡ some t
      → get_elem? (start_build deps config b p).1.tasks i ≡ some t
  unfolding start_build
  start_build-get_elem? b p i t found =
      ground
        (arith, get_elem?-append_one p.tasks (new_task b) i, get_elem?-lt_length p.tasks i t found)

  -- A build whose goroutine has ended is not building.
  finished-is_building :
      (t : Task W) → InStep t → t.pc ≡ finished → is_building t.build.status ≡ false
  finished-is_building t in_step ended =
      let final : IsFinal t.build.status = subst (λ pc. Agrees pc t.build.status) ended in_step in
      ground arith

  -- Goroutine `i` is there as `t`, has ended, and no call of `CancelBuild` is at work on its build.
  record IsOver (i : ℕ) (t : Task W) (p : Pipeline W) : Type 0 where
    in_step : All InStep p.tasks
    found : get_elem? p.tasks i ≡ some t
    ended : t.pc ≡ finished
    left_alone : is_cancelling i p ≡ false

  start_build-canceller :
      (b : Build) (p : Pipeline W) → (start_build deps config b p).1.canceller ≡ p.canceller
  unfolding start_build
  start_build-canceller b p = ground arith

  start-IsOver :
      (b : Build) (p : Pipeline W) (i : ℕ) (t : Task W)
      → IsOver i t p
      → (get_elem? (perform deps config (start b) p).tasks i ≡ some t)
        × (is_cancelling i (perform deps config (start b) p) ≡ false)
  unfolding perform is_cancelling
  start-IsOver b p i t o = elim (Option-cases p.canceller) [
    | inl free ↦
        let same = start_build-canceller b p in
        (
          rw (free, perform) (start_build-get_elem? b p i t o.found),
          rw (free, perform, is_cancelling, same, free) refl,
        )
    | inr (c, at_work) ↦ (rw (at_work, perform) o.found, ground (arith, at_work, o.left_alone))
  ]

  begin_cancel-IsOver :
      (id : String) (p : Pipeline W) (i : ℕ) (t : Task W)
      → IsOver i t p
      → (get_elem? (begin_cancel deps config id p).tasks i ≡ some t)
        × (is_cancelling i (begin_cancel deps config id p) ≡ false)
  unfolding begin_cancel is_cancelling
  begin_cancel-IsOver id p i t o = elim (Option-cases p.canceller) [
    | inr (c, at_work) ↦ (ground (arith, at_work, o.found), ground (arith, at_work, o.left_alone))
    | inl free ↦ elim (Result-cases (find_building id p)) [
      | inr (e, refused) ↦
          (ground (arith, free, refused, o.found), ground (arith, free, refused, o.left_alone))
      | inl (j, accepted) ↦
          let (u, there, busy) = find_building_ok id p j accepted in
          let at_j = (find_task_found id p j u there).1 in
          let idle =
            finished-is_building t (All-get_elem? InStep p.tasks i t o.in_step o.found) o.ended in
          let found = o.found in
          (
            ground (arith, free, accepted, o.found),
            ground (arith, free, accepted, at_j, busy, idle, found),
          )
    ]
  ]

  Cancelled-get_elem? :
      (j : ℕ) (tasks tasks' : List (Task W)) (i : ℕ) (t : Task W)
      → Cancelled j tasks tasks'
      → get_elem? tasks i ≡ some t
      → nat_eq j i ≡ false
      → get_elem? tasks' i ≡ some t
  Cancelled-get_elem? j tasks _ i t untouched found other = found
  Cancelled-get_elem? j tasks _ i t (touched u u' at_j same_id same_pc status) found other =
      ground (arith, get_elem?-set tasks j i u' u at_j)

  go_on_cancel-IsOver :
      (p : Pipeline W) (i : ℕ) (t : Task W)
      → IsOver i t p
      → (get_elem? (go_on_cancel deps config p).tasks i ≡ some t)
        × (is_cancelling i (go_on_cancel deps config p) ≡ false)
  unfolding go_on_cancel is_cancelling
  go_on_cancel-IsOver p i t o = elim (Option-cases p.canceller) [
    | inl free ↦ (ground (arith, free, o.found), ground (arith, free, o.left_alone))
    | inr (c, at_work) ↦
        let other : nat_eq c.task i ≡ false = ground (arith, at_work, o.left_alone) in
        (
          rw (at_work, go_on_cancel)
              (Cancelled-get_elem? c.task p.tasks _ i t
                (cancel_at-Cancelled deps config c.pc c.task p) o.found other),
          ground (arith, at_work, other),
        )
  ]

  step-finished : (t : Task W) (w : W) → t.pc ≡ finished → step deps config t w ≡ (t, w)
  unfolding step
  step-finished t w ended = rw ended

  run_task-IsOver :
      (j : ℕ) (p : Pipeline W) (i : ℕ) (t : Task W)
      → IsOver i t p
      → (get_elem? (run_task deps config j p).tasks i ≡ some t)
        × (is_cancelling i (run_task deps config j p) ≡ false)
  unfolding run_task is_cancelling
  run_task-IsOver j p i t o = elim (Option-cases (get_elem? p.tasks j)) [
    | inl missing ↦ rw (missing, run_task) (o.found, o.left_alone)
    | inr (u, there) ↦ elim (Bool-cases (waits u.pc p.canceller)) [
      | inl blocked ↦ rw (there, blocked, run_task) (o.found, o.left_alone)
      | inr free ↦
          let q = step deps config u p.world in
          let still = step-finished t p.world o.ended in
          let found = o.found in
          rw (there, free, run_task)
            (
              ground (arith, get_elem?-set p.tasks j i q.0 u there, still, found, there),
              o.left_alone,
            )
    ]
  ]

  perform-IsOver :
      (e : Event) (p : Pipeline W) (i : ℕ) (t : Task W)
      → IsOver i t p
      → (get_elem? (perform deps config e p).tasks i ≡ some t)
        × (is_cancelling i (perform deps config e p) ≡ false)
  unfolding perform
  perform-IsOver (start b) p i t o = start-IsOver b p i t o
  perform-IsOver (cancel id) p i t o = begin_cancel-IsOver id p i t o
  perform-IsOver go_on p i t o = go_on_cancel-IsOver p i t o
  perform-IsOver (run j) p i t o = run_task-IsOver j p i t o

  perform_all-get_elem? :
      (es : List Event) (p : Pipeline W) (i : ℕ) (t : Task W)
      → IsOver i t p
      → get_elem? (perform_all deps config es p).tasks i ≡ some t
  unfolding perform_all
  perform_all-get_elem? [] p i t o = o.found
  perform_all-get_elem? (e ∷ es) p i t o =
      let (found, left_alone) = perform-IsOver e p i t o in
      perform_all-get_elem? es (perform deps config e p) i t (record {
        in_step = perform-InStep deps config e p o.in_step;
        found = found;
        ended = o.ended;
        left_alone = left_alone;
      })

  -- Once its goroutine has ended and no call of `CancelBuild` is at work on it, a build of a pipeline
  -- never changes any more, whatever is started, cancelled and scheduled afterwards.
  pub finished_stays :
      (w : W) (before later : List Event) (i : ℕ) (t : Task W)
      → get_elem? (perform_all deps config before (new_pipeline w)).tasks i ≡ some t
      → t.pc ≡ finished
      → is_cancelling i (perform_all deps config before (new_pipeline w)) ≡ false
      → let reached = perform_all deps config before (new_pipeline w) in
        get_elem? (perform_all deps config later reached).tasks i ≡ some t
  finished_stays w before later i t found ended left_alone =
      perform_all-get_elem? later (perform_all deps config before (new_pipeline w)) i t (record {
        in_step = perform_all-InStep deps config before (new_pipeline w) tt;
        found = found;
        ended = ended;
        left_alone = left_alone;
      })

  -- What the goroutine leaves of a build whose `executeBuild` has returned an error.
  abbrev pub failed_with : String → Task W → Task W
  failed_with e t = record t {
    build = record t.build { status = failed; error_message = e };
    pc = finished;
  }

  run_task-reporting :
      (p : Pipeline W) (i : ℕ) (t : Task W) (e : String)
      → get_elem? p.tasks i ≡ some t
      → t.pc ≡ reporting (some e)
      → run_task deps config i p ≡ record p { tasks = set p.tasks i (failed_with e t) }
  unfolding run_task step
  run_task-reporting p i t e found at_report =
      let moves : step deps config t p.world ≡ (failed_with e t, p.world) = rw at_report in
      rw (found, run_task, at_report, moves) refl

  -- In every state that a new pipeline reaches, where `executeBuild` has returned an error for a build
  -- and no call of `CancelBuild` is at work on it, the next statement of its goroutine makes it
  -- failed with this error, and so it stays, whatever happens afterwards. A build that was cancelled
  -- before is no exception: its status becomes failed.
  pub failed_for_good :
      (w : W) (before later : List Event) (i : ℕ) (t : Task W) (e : String)
      → get_elem? (perform_all deps config before (new_pipeline w)).tasks i ≡ some t
      → t.pc ≡ reporting (some e)
      → is_cancelling i (perform_all deps config before (new_pipeline w)) ≡ false
      → let reached = perform_all deps config before (new_pipeline w) in
        get_elem? (perform_all deps config (run i ∷ later) reached).tasks i ≡ some (failed_with e t)
  unfolding perform_all perform is_cancelling
  failed_for_good w before later i t e found at_report left_alone =
      let reached = perform_all deps config before (new_pipeline w) in
      let in_step = perform_all-InStep deps config before (new_pipeline w) tt in
      let next = run_task-reporting reached i t e found at_report in
      perform_all-get_elem? later (run_task deps config i reached) i (failed_with e t) (record {
        in_step = perform-InStep deps config (run i) reached in_step;
        found = rw next (ground (arith, get_elem?-set reached.tasks i i (failed_with e t) t found));
        ended = refl;
        left_alone = rw next left_alone;
      })

  -- A call of `CancelBuild` on the build of goroutine `i` that has two statements left.
  go_on_twice :
      (p : Pipeline W) (i : ℕ) (t : Task W)
      → get_elem? p.tasks i ≡ some t
      → p.canceller ≡ some (record { task = i; pc = writing_status })
      → let q = go_on_cancel deps config (go_on_cancel deps config p) in
        (get_elem? q.tasks i ≡ some (write_time (deps.os.now p.world).0 (write_status t)))
        × (q.canceller ≡ none)
  unfolding go_on_cancel cancel_at update_task
  go_on_twice p i t found at_work =
      let first = write_status t in
      let at_first = get_elem?-set p.tasks i i first t found in
      let tasks = set p.tasks i first in
      let last = write_time (deps.os.now p.world).0 first in
      let at_last = get_elem?-set tasks i i last first (ground (arith, at_first)) in
      (
        ground (arith, found, at_work, at_first, at_last),
        ground (arith, found, at_work, at_first, at_last),
      )

  -- In every state that a new pipeline reaches, where a call of `CancelBuild` that found a build
  -- building has still to write its status, and the goroutine of the build has ended meanwhile, the
  -- call makes the build cancelled, although it had succeeded or failed before, and it stays
  -- cancelled, whatever happens afterwards.
  pub cancelled_for_good :
      (w : W) (before later : List Event) (i : ℕ) (t : Task W)
      → get_elem? (perform_all deps config before (new_pipeline w)).tasks i ≡ some t
      → t.pc ≡ finished
      → (perform_all deps config before (new_pipeline w)).canceller
        ≡ some (record { task = i; pc = writing_status })
      → let reached = perform_all deps config before (new_pipeline w) in
        (t' : Task W) × (get_elem? (perform_all deps config (go_on ∷ go_on ∷ later) reached).tasks i
          ≡ some t')
        × (t'.build.status ≡ cancelled)
        × (t'.build.complete_time ≡ some (deps.os.now reached.world).0)
  unfolding perform_all perform is_cancelling
  cancelled_for_good w before later i t found ended at_work =
      let reached = perform_all deps config before (new_pipeline w) in
      let in_step = perform_all-InStep deps config before (new_pipeline w) tt in
      let left = write_time (deps.os.now reached.world).0 (write_status t) in
      let next = perform deps config go_on reached in
      let (there, free) = go_on_twice reached i t found at_work in
      (
        left,
        perform_all-get_elem? later (perform deps config go_on next) i left (record {
          in_step =
              perform-InStep deps config go_on next
                (perform-InStep deps config go_on reached in_step);
          found = there;
          ended = ended;
          left_alone = rw free refl;
        }),
        refl,
        refl,
      )
