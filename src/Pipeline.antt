-- ===== src/Pipeline.antt =====
-- internal/pipeline: `Pipeline` of pipeline.go over its goroutines, with the parts that it works
-- with in the modules below. A build that was started lives in its goroutine's task, and `builds`
-- maps an id to the task's number, as the source's map holds a pointer to the build. The lock `mu`
-- keeps the calls of the methods apart, and a goroutine from storing its cancel function during one.
-- It does not keep a goroutine from writing its build: a call of `CancelBuild` that has found its
-- build building is therefore cut into its statements, and goroutines run between them (`canceller`
-- is this call, which holds the lock). `StartBuild` writes the map in one statement under the lock,
-- and `GetBuild` reads it in one. Every call of `StartBuild` is given a build of its own.
-- The metrics collector of `Pipeline` (Metrics) is never used by its methods and is left out here.
pub mod Config
pub mod Types
pub mod Interfaces
pub mod BuildContext
pub mod Goroutine
pub mod Statuses
pub mod Finality
pub mod Builds
pub mod Execution
pub mod NodeJsValidator
pub mod NodeJsBuilder
pub mod Kubernetes
pub mod Static
pub mod Cancels
pub mod Registry
pub mod Cleanup
pub mod Wiring
pub mod Metrics
use chef_infra.Base.{
  ℕ, String, ◌<>◌, Bool, true, false, ◌||◌, Option, none, some, List, [], ◌∷◌, ◌++◌, length,
  get_elem?, set,
}
use chef_infra.Base.Result.{Result, ok, err}
use chef_infra.Base.Exec.{Exec}
use chef_infra.Base.Dict.{Dict, lookup, insert}
use Config.{PipelineConfig}
use Types.{Build, BuildStatus, pending, building, success, failed, cancelled, status_text}
use Interfaces.{Deps}
use BuildContext.{wrap}
use Goroutine.{Task, Pc, entering, storing_cancel, step}

-- The statement of `CancelBuild` that comes next, after its checks.
pub data CancelPc : Type 0 where
  calling_cancel writing_status writing_time : CancelPc

-- A call of `CancelBuild` with the build that it works on.
pub record Canceller : Type 0 where
  pub task : ℕ
  pub pc : CancelPc

pub record Pipeline (W : Type 0) : Type 0 where
  pub world : W
  pub builds : Dict ℕ
  pub tasks : List (Task W)
  pub canceller : Option Canceller

-- `NewPipeline`
abbrev pub new_pipeline : {W : Type 0} → W → Pipeline W
new_pipeline w = record { world = w; builds = []; tasks = []; canceller = none }

-- A goroutine that has not run yet.
abbrev pub new_task : {W : Type 0} → Build → Task W
new_task build = record { build = build; pc = entering; is_cancelled = false }

-- The task that the map holds under an id.
unfoldable pub find_task : {W : Type 0} → String → Pipeline W → Option (ℕ × Task W)
find_task build_id p = elim (lookup build_id p.builds) [
  | none ↦ none
  | some i ↦ elim (get_elem? p.tasks i) [ none ↦ none | some t ↦ some (i, t) ]
]

unfoldable pub get_build : {W : Type 0} → String → Pipeline W → Result String Build
get_build build_id p = elim (find_task build_id p) [
  | none ↦ err ("build not found: " <> build_id)
  | some (i, t) ↦ ok t.build
]

-- `build.Status == BuildStatusBuilding`
abbrev pub is_building : BuildStatus → Bool
is_building building = true
is_building _ = false

-- The checks of `CancelBuild`.
unfoldable pub find_building : {W : Type 0} → String → Pipeline W → Result String ℕ
find_building build_id p = elim (find_task build_id p) [
  | none ↦ err ("build not found: " <> build_id)
  | some (i, t) ↦ elim (is_building t.build.status) [
    | false ↦ err ("cannot cancel build with status: " <> status_text t.build.status)
    | true ↦ ok i
  ]
]

-- A write through the pointer to the build of goroutine `i`.
unfoldable pub update_task : {W : Type 0} → ℕ → (Task W → Task W) → Pipeline W → Pipeline W
update_task i f p = elim (get_elem? p.tasks i) [
  | none ↦ p
  | some t ↦ record p { tasks = set p.tasks i (f t) }
]

-- `if build.CancelFunc != nil { build.CancelFunc() }`
abbrev pub call_cancel : {W : Type 0} → Task W → Task W
call_cancel t = record t { is_cancelled = t.build.cancel_func || t.is_cancelled }

abbrev pub write_status : {W : Type 0} → Task W → Task W
write_status t = record t { build = record t.build { status = cancelled } }

abbrev pub write_time : {W : Type 0} → ℕ → Task W → Task W
write_time time t = record t { build = record t.build { complete_time = some time } }

-- Whether a goroutine waits for the lock that a call of `CancelBuild` holds.
abbrev pub waits : {W : Type 0} → Pc W → Option Canceller → Bool
waits storing_cancel (some c) = true
waits _ _ = false

-- The call of `CancelBuild` after a statement.
abbrev pub next_call : Canceller → Option Canceller
next_call c = elim c.pc [
  | calling_cancel ↦ some (record c { pc = writing_status })
  | writing_status ↦ some (record c { pc = writing_time })
  | writing_time ↦ none
]

-- What happens next: a call from outside, the next statement of the call of `CancelBuild` that is
-- under way, or the next statement of a goroutine.
pub data Event : Type 0 where
  start : Build → Event
  cancel : String → Event
  go_on : Event
  run : ℕ → Event

module _ {W : Type 0} (deps : Deps W) (config : PipelineConfig) where
  unfoldable pub start_build : Build → Exec String (Pipeline W) (Unit {0})
  start_build build p =
      let (r, w) =
        wrap "build validation failed" (deps.validator.validate_build_config build) p.world in
      elim r [
        | err e ↦ (err e, record p { world = w })
        | ok _ ↦ (
          ok tt,
          record p {
            world = w;
            builds = insert build.id (length p.tasks) p.builds;
            tasks = p.tasks ++ (new_task build ∷ []);
          },
        )
      ]

  -- The statement of `CancelBuild` at the given place.
  unfoldable pub cancel_at : CancelPc → ℕ → Pipeline W → Pipeline W
  cancel_at calling_cancel i p = update_task i call_cancel p
  cancel_at writing_status i p = update_task i write_status p
  cancel_at writing_time i p =
      let (time, w) = deps.os.now p.world in
      update_task i (write_time time) (record p { world = w })

  -- A whole call, with nothing in between.
  unfoldable pub cancel_build : String → Exec String (Pipeline W) (Unit {0})
  cancel_build build_id p = elim (find_building build_id p) [
    | err e ↦ (err e, p)
    | ok i ↦ (
      ok tt,
      cancel_at writing_time i (cancel_at writing_status i (cancel_at calling_cancel i p)),
    )
  ]

  -- A call of `CancelBuild` is made: it waits where another holds the lock.
  unfoldable pub begin_cancel : String → Pipeline W → Pipeline W
  begin_cancel build_id p = elim p.canceller [
    | some c ↦ p
    | none ↦ elim (find_building build_id p) [
      | err e ↦ p
      | ok i ↦ record p { canceller = some (record { task = i; pc = calling_cancel }) }
    ]
  ]

  -- The call of `CancelBuild` goes on by a statement, and returns after the last.
  unfoldable pub go_on_cancel : Pipeline W → Pipeline W
  go_on_cancel p = elim p.canceller [
    | none ↦ p
    | some c ↦ record (cancel_at c.pc c.task p) { canceller = next_call c }
  ]

  -- The scheduler runs goroutine `i` for one step.
  unfoldable pub run_task : ℕ → Pipeline W → Pipeline W
  run_task i p = elim (get_elem? p.tasks i) [
    | none ↦ p
    | some t ↦ elim (waits t.pc p.canceller) [
      | true ↦ p
      | false ↦
          let (t', w) = step deps config t p.world in
          record p { world = w; tasks = set p.tasks i t' }
    ]
  ]

  -- A call that finds the lock held does nothing here: it waits, and is an event again later.
  unfoldable pub perform : Event → Pipeline W → Pipeline W
  perform (start build) p = elim p.canceller [ some c ↦ p | none ↦ (start_build build p).1 ]
  perform (cancel build_id) p = begin_cancel build_id p
  perform go_on p = go_on_cancel p
  perform (run i) p = run_task i p

  unfoldable pub perform_all : List Event → Pipeline W → Pipeline W
  perform_all [] p = p
  perform_all (e ∷ es) p = perform_all es (perform e p)
