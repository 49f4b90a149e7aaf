-- ===== src/Pipeline/Builds.antt =====
-- `StartBuild`, `GetBuild` and `CancelBuild` of internal/pipeline/pipeline.go: what each call finds
-- and changes.
use chef_infra.Base.{
  ℕ, ◌≡◌, ◌≢◌, ◌⊎◌, List, set, set-set, Bool-cases, inl, inr, refl, some, Option-cases, String,
  ◌<>◌, arith, get_elem?, length, get_elem?-set, get_elem?-append_one, get_elem?-lt_length,
}
use chef_infra.Base.Result.{ok, err}
use chef_infra.Base.Dict.{lookup, lookup-insert}
use chef_infra.Pipeline.Config.{PipelineConfig}
use chef_infra.Pipeline.Types.{Build, building, cancelled}
use chef_infra.Pipeline.Interfaces.{Deps}
use chef_infra.Pipeline.Goroutine.{Task}
use chef_infra.Pipeline.{
  Pipeline, new_task, find_task, get_build, start_build, find_building, update_task, is_building,
  CancelPc, calling_cancel, writing_status, writing_time, call_cancel, write_status, write_time,
  cancel_at, cancel_build,
}

pub find_task_found :
    {W : Type 0} (id : String) (p : Pipeline W) (i : ℕ) (t : Task W)
    → find_task id p ≡ some (i, t)
    → (lookup id p.builds ≡ some i) × (get_elem? p.tasks i ≡ some t)
unfolding find_task
find_task_found id p i t h = ground arith

-- A build that the checks of `CancelBuild` let through.
pub find_building_ok :
    {W : Type 0} (id : String) (p : Pipeline W) (i : ℕ)
    → find_building id p ≡ ok i
    → (t : Task W) × (find_task id p ≡ some (i, t)) × (t.build.status ≡ building)
unfolding find_building
find_building_ok id p i h = elim (Option-cases (find_task id p)) [
  | inl missing ↦ absurd (ground arith)
  | inr ((j, t), there) ↦ elim (Bool-cases (is_building t.build.status)) [
    | inl busy ↦ (t, ground arith, ground arith)
    | inr idle ↦ absurd (ground arith)
  ]
]

-- The goroutines after a statement of `CancelBuild`: the one that it works on has changed, and its
-- build has kept its id.
pub data Cancelled {W : Type 0} (i : ℕ) (tasks : List (Task W)) : List (Task W) → Type 0 where
  untouched : Cancelled i tasks tasks
  touched :
      (t t' : Task W)
      → get_elem? tasks i ≡ some t
      → t'.build.id ≡ t.build.id
      → t'.pc ≡ t.pc
      → (t'.build.status ≡ t.build.status) ⊎ (t'.build.status ≡ cancelled)
      → Cancelled i tasks (set tasks i t')

pub update_task-Cancelled :
    {W : Type 0} (i : ℕ) (f : Task W → Task W) (p : Pipeline W)
    → ((t : Task W)
        → ((f t).build.id ≡ t.build.id)
          × ((f t).pc ≡ t.pc)
          × (((f t).build.status ≡ t.build.status) ⊎ ((f t).build.status ≡ cancelled)))
    → Cancelled i p.tasks (update_task i f p).tasks
unfolding update_task
update_task-Cancelled i f p kept = elim (Option-cases (get_elem? p.tasks i)) [
  | inl missing ↦ rw (missing, update_task) untouched
  | inr (t, there) ↦
      let (same_id, same_pc, status) = kept t in
      rw (there, update_task) (touched t (f t) there same_id same_pc status)
]

module _ {W : Type 0} (deps : Deps W) (config : PipelineConfig) where
  get_build_ok :
      (id : String) (p : Pipeline W) (b : Build)
      → get_build id p ≡ ok b
      → (i : ℕ) × (t : Task W) × (lookup id p.builds ≡ some i)
        × (get_elem? p.tasks i ≡ some t)
        × (t.build ≡ b)
  unfolding get_build find_task
  get_build_ok id p b h = elim (Option-cases (lookup id p.builds)) [
    | inl missing ↦ absurd (ground arith)
    | inr (i, mapped) ↦ elim (Option-cases (get_elem? p.tasks i)) [
      | inl missing ↦ absurd (ground arith)
      | inr (t, held) ↦ (i, t, mapped, held, ground arith)
    ]
  ]

  -- A build that `StartBuild` accepts is the one that `GetBuild` then returns for its id, as it was
  -- given, and a build that `GetBuild` returned for another id is still returned.
  pub get_build-start_build :
      (b : Build) (p : Pipeline W) (id : String) (old : Build)
      → (start_build deps config b p).0 ≡ ok tt
      → b.id ≢ id
      → get_build id p ≡ ok old
      → (get_build b.id (start_build deps config b p).1 ≡ ok b)
        × (get_build id (start_build deps config b p).1 ≡ ok old)
  unfolding start_build get_build find_task
  get_build-start_build b p id old started differ found = (
    ground (
      arith,
      lookup-insert b.id b.id (length p.tasks) p.builds,
      get_elem?-append_one p.tasks (new_task b) (length p.tasks),
    ),
    let (i, t, mapped, held, same) = get_build_ok id p old found in
        ground (
          arith,
          lookup-insert b.id id (length p.tasks) p.builds,
          get_elem?-append_one p.tasks (new_task b) i,
          get_elem?-lt_length p.tasks i t held,
        ),
  )

  -- A build that the validator refuses is not started: the map and the goroutines are as before.
  pub start_build_refused :
      (b : Build) (p : Pipeline W) (e : String)
      → (deps.validator.validate_build_config b p.world).0 ≡ err e
      → ((start_build deps config b p).0 ≡ err ("build validation failed" <> (": " <> e)))
        × ((start_build deps config b p).1.builds ≡ p.builds)
        × ((start_build deps config b p).1.tasks ≡ p.tasks)
  unfolding start_build
  start_build_refused b p e refused = ground arith

  pub cancel_at-Cancelled :
      (pc : CancelPc) (i : ℕ) (p : Pipeline W)
      → Cancelled i p.tasks (cancel_at deps config pc i p).tasks
  unfolding cancel_at
  cancel_at-Cancelled calling_cancel i p =
      update_task-Cancelled i call_cancel p (λ t. (refl, refl, inl refl))
  cancel_at-Cancelled writing_status i p =
      update_task-Cancelled i write_status p (λ t. (refl, refl, inr refl))
  cancel_at-Cancelled writing_time i p =
      update_task-Cancelled i (write_time (deps.os.now p.world).0) _ (λ t. (refl, refl, inl refl))

  pub cancel_at-builds :
      (pc : CancelPc) (i : ℕ) (p : Pipeline W) → (cancel_at deps config pc i p).builds ≡ p.builds
  unfolding cancel_at update_task
  cancel_at-builds calling_cancel i p = ground arith
  cancel_at-builds writing_status i p = ground arith
  cancel_at-builds writing_time i p = ground arith

  -- A whole call of `CancelBuild` that its checks let through.
  pub cancel_build_tasks :
      (id : String) (p : Pipeline W) (i : ℕ) (t : Task W)
      → find_building id p ≡ ok i
      → get_elem? p.tasks i ≡ some t
      → let (time, w) = deps.os.now p.world in
        cancel_build deps config id p ≡ (
          ok tt,
          record p {
            world = w;
            tasks = set p.tasks i (write_time time (write_status (call_cancel t)));
          },
        )
  unfolding cancel_build cancel_at update_task
  cancel_build_tasks id p i t found at_i =
      let first = call_cancel t in
      let second = write_status first in
      let at_first = get_elem?-set p.tasks i i first t at_i in
      let tasks = set p.tasks i first in
      let at_second = get_elem?-set tasks i i second first (ground (arith, at_first)) in
      let twice = set-set p.tasks i first second in
      let thrice = set-set tasks i second (write_time (deps.os.now p.world).0 second) in
      let again = set-set p.tasks i first (write_time (deps.os.now p.world).0 second) in
      ground (arith, found, at_i, at_first, at_second, twice, thrice, again)
