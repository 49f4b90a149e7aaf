-- ===== src/Pipeline/Registry.antt =====
-- Which build `GetBuild` of internal/pipeline/pipeline.go finds under an id, in every state that a
-- pipeline reaches.
use chef_infra.Base.{
  ℕ, ◌≤◌, ◌≡◌, inl, inr, sym, ◌∙◌, ap, some, Option-cases, Bool-cases, String, List, [], ◌∷◌, ◌++◌,
  ◌==◌, length, get_elem?, set, get_elem?-set, get_elem?-set_cases, get_elem?-append_one,
  get_elem?-append_one_cases, get_elem?-lt_length, nat_eq, arith,
}
use chef_infra.Base.Result.{ok, Result-cases}
use chef_infra.Base.Dict.{Dict, lookup, insert, lookup-insert, lookup-nil}
use chef_infra.Pipeline.Builds.{
  Cancelled, untouched, touched, cancel_at-Cancelled, cancel_at-builds,
}
use chef_infra.Pipeline.Config.{PipelineConfig}
use chef_infra.Pipeline.Types.{Build}
use chef_infra.Pipeline.Interfaces.{Deps}
use chef_infra.Pipeline.Goroutine.{Task}
use chef_infra.Pipeline.Goroutine.Statuses.{step-id}
use chef_infra.Pipeline.{
  Pipeline, Event, start, cancel, run, go_on, new_pipeline, new_task, find_task, get_build, waits,
  find_building, start_build, begin_cancel, go_on_cancel, run_task, perform, perform_all,
}

module _ {W : Type 0} where
  -- The map and the goroutines belong together: an id leads to a goroutine with a build of that id,
  -- and the id of each goroutine's build leads to this goroutine or to a later one.
  record IsRegistry (builds : Dict ℕ) (tasks : List (Task W)) : Type 0 where
    held :
        (id : String) (i : ℕ)
        → lookup id builds ≡ some i
        → (t : Task W) × (get_elem? tasks i ≡ some t) × (t.build.id ≡ id)
    known :
        (i : ℕ) (t : Task W)
        → get_elem? tasks i ≡ some t
        → (j : ℕ) × (lookup t.build.id builds ≡ some j) × (i ≤ j)

  -- A change of one goroutine that keeps the id of its build.
  set-IsRegistry :
      (builds : Dict ℕ) (tasks : List (Task W)) (j : ℕ) (u u' : Task W)
      → IsRegistry builds tasks
      → get_elem? tasks j ≡ some u
      → u'.build.id ≡ u.build.id
      → IsRegistry builds (set tasks j u')
  set-IsRegistry builds tasks j u u' r at_j same = record {
    held = λ id i mapped.
        let (t, at_i, is_id) = r.held id i mapped in
        let written = get_elem?-set tasks j i u' u at_j in
        elim (Bool-cases (nat_eq j i)) [
          | inl here ↦ (u', ground (arith, written), ground (arith, at_i, at_j))
          | inr there ↦ (t, ground (arith, written), is_id)
        ];
    known = λ i t at_i. elim (get_elem?-set_cases tasks j i u' u t at_j at_i) [
      | inl (j_i, u'_t) ↦
          rw (← j_i, sym (ap (λ (v : Task W). v.build.id) u'_t) ∙ same) (r.known j u at_j)
      | inr (_, there) ↦ r.known i t there
    ];
  }

  append_position :
      (tasks : List (Task W)) (t : Task W) (i : ℕ) (u : Task W)
      → get_elem? (tasks ++ (t ∷ [])) i ≡ some u
      → i ≤ length tasks
  append_position tasks t i u at_i =
      let written = get_elem?-append_one tasks t i in
      elim (Bool-cases (nat_eq i (length tasks))) [
        | inl last ↦ ground (arith, last)
        | inr other ↦ omega (arith, get_elem?-lt_length tasks i u (ground (arith, written)))
      ]

  -- A goroutine more, at the end, that the id of its build leads to.
  append-IsRegistry :
      (builds : Dict ℕ) (tasks : List (Task W)) (t : Task W)
      → IsRegistry builds tasks
      → IsRegistry (insert t.build.id (length tasks) builds) (tasks ++ (t ∷ []))
  append-IsRegistry builds tasks t r = record {
    held = λ id i mapped.
        let found = lookup-insert t.build.id id (length tasks) builds in
        elim (Bool-cases (t.build.id == id)) [
          | inl is_id ↦
              (t, ground (arith, get_elem?-append_one tasks t i, found), ground (arith, is_id))
          | inr other ↦
              let (u, at_i, same) = r.held id i (ground (arith, found)) in
              let early = get_elem?-lt_length tasks i u at_i in
              (u, ground (arith, get_elem?-append_one tasks t i), same)
        ];
    known = λ i u at_i.
        let found = lookup-insert t.build.id u.build.id (length tasks) builds in
        elim (Bool-cases (t.build.id == u.build.id)) [
          | inl same ↦ (length tasks, ground (arith, found), append_position tasks t i u at_i)
          | inr other ↦ elim (get_elem?-append_one_cases tasks t i u at_i) [
            | inl is_t ↦ absurd (ground (arith, other, is_t))
            | inr there ↦ let (j, mapped, le) = r.known i u there in (j, ground (arith, found), le)
          ]
        ];
  }

  -- What `GetBuild` finds for the id of a goroutine's build: the build of the last goroutine that
  -- has this id.
  abbrev pub FindsLatest : Pipeline W → String → Type 0
  FindsLatest p id =
      (j : ℕ) × (u : Task W) × (get_elem? p.tasks j ≡ some u)
      × (u.build.id ≡ id)
      × (get_build id p ≡ ok u.build)
      × ((k : ℕ) (v : Task W) → get_elem? p.tasks k ≡ some v → v.build.id ≡ id → k ≤ j)

  IsRegistry-FindsLatest :
      (p : Pipeline W) (i : ℕ) (t : Task W)
      → IsRegistry p.builds p.tasks
      → get_elem? p.tasks i ≡ some t
      → FindsLatest p t.build.id
  unfolding get_build find_task
  IsRegistry-FindsLatest p i t r at_i =
      let (j, mapped, _) = r.known i t at_i in
      let (u, at_j, is_id) = r.held t.build.id j mapped in
      (
        j,
        u,
        at_j,
        is_id,
        ground arith,
        λ k v at_k same.
            let (l, v_mapped, le) = r.known k v at_k in
            let same_end : l ≡ j = cc (v_mapped, mapped, same) in rw same_end at le,
      )

module _ {W : Type 0} (deps : Deps W) (config : PipelineConfig) where
  start_build-IsRegistry :
      (b : Build) (p : Pipeline W)
      → IsRegistry p.builds p.tasks
      → let q = (start_build deps config b p).1 in IsRegistry q.builds q.tasks
  unfolding start_build
  start_build-IsRegistry b p r =
      elim (Result-cases (deps.validator.validate_build_config b p.world).0) [
        | inr (e, refused) ↦ rw (refused, start_build) r
        | inl (_, accepted) ↦
            rw (accepted, start_build) (append-IsRegistry p.builds p.tasks (new_task b) r)
      ]

  Cancelled-IsRegistry :
      (builds : Dict ℕ) (i : ℕ) (tasks tasks' : List (Task W))
      → Cancelled i tasks tasks'
      → IsRegistry builds tasks
      → IsRegistry builds tasks'
  Cancelled-IsRegistry builds i tasks _ untouched r = r
  Cancelled-IsRegistry builds i tasks _ (touched t t' at_i same_id same_pc status) r =
      set-IsRegistry builds tasks i t t' r at_i same_id

  begin_cancel-IsRegistry :
      (id : String) (p : Pipeline W)
      → IsRegistry p.builds p.tasks
      → let q = begin_cancel deps config id p in IsRegistry q.builds q.tasks
  unfolding begin_cancel
  begin_cancel-IsRegistry id p r = elim (Option-cases p.canceller) [
    | inr (c, at_work) ↦ rw (at_work, begin_cancel) r
    | inl free ↦ elim (Result-cases (find_building id p)) [
      | inr (e, refused) ↦ rw (free, refused, begin_cancel) r
      | inl (j, accepted) ↦ rw (free, accepted, begin_cancel) r
    ]
  ]

  go_on_cancel-IsRegistry :
      (p : Pipeline W)
      → IsRegistry p.builds p.tasks
      → let q = go_on_cancel deps config p in IsRegistry q.builds q.tasks
  unfolding go_on_cancel
  go_on_cancel-IsRegistry p r = elim (Option-cases p.canceller) [
    | inl free ↦ rw (free, go_on_cancel) r
    | inr (c, at_work) ↦
        rw (at_work, go_on_cancel, cancel_at-builds deps config c.pc c.task p)
          (Cancelled-IsRegistry p.builds c.task p.tasks _
            (cancel_at-Cancelled deps config c.pc c.task p) r)
  ]

  run_task-IsRegistry :
      (j : ℕ) (p : Pipeline W)
      → IsRegistry p.builds p.tasks
      → let q = run_task deps config j p in IsRegistry q.builds q.tasks
  unfolding run_task
  run_task-IsRegistry j p r = elim (Option-cases (get_elem? p.tasks j)) [
    | inl missing ↦ rw (missing, run_task) r
    | inr (u, there) ↦ elim (Bool-cases (waits u.pc p.canceller)) [
      | inl blocked ↦ rw (there, blocked, run_task) r
      | inr free ↦
          rw (there, free, run_task)
            (set-IsRegistry p.builds p.tasks j u _ r there (step-id deps config u p.world))
    ]
  ]

  perform-IsRegistry :
      (e : Event) (p : Pipeline W)
      → IsRegistry p.builds p.tasks
      → let q = perform deps config e p in IsRegistry q.builds q.tasks
  unfolding perform
  perform-IsRegistry (start b) p r = elim (Option-cases p.canceller) [
    | inl free ↦ rw (free, perform) (start_build-IsRegistry b p r)
    | inr (c, at_work) ↦ rw (at_work, perform) r
  ]
  perform-IsRegistry (cancel id) p r = begin_cancel-IsRegistry id p r
  perform-IsRegistry go_on p r = go_on_cancel-IsRegistry p r
  perform-IsRegistry (run j) p r = run_task-IsRegistry j p r

  perform_all-IsRegistry :
      (es : List Event) (p : Pipeline W)
      → IsRegistry p.builds p.tasks
      → let q = perform_all deps config es p in IsRegistry q.builds q.tasks
  unfolding perform_all
  perform_all-IsRegistry [] p r = r
  perform_all-IsRegistry (e ∷ es) p r = perform_all-IsRegistry es _ (perform-IsRegistry e p r)

  new_pipeline-IsRegistry : (w : W) → IsRegistry [] (new_pipeline w).tasks
  new_pipeline-IsRegistry w = record {
    held = λ id i mapped. absurd (cc (lookup-nil id, mapped));
    known = λ i t at_i. absurd (cc at_i);
  }

  -- In every state that a new pipeline reaches, `GetBuild` finds, for the id of the build of any
  -- goroutine, a build with this id: the one of the last goroutine that was started with it.
  pub get_build_reached :
      (w : W) (es : List Event) (i : ℕ) (t : Task W)
      → get_elem? (perform_all deps config es (new_pipeline w)).tasks i ≡ some t
      → FindsLatest (perform_all deps config es (new_pipeline w)) t.build.id
  get_build_reached w es i t at_i =
      IsRegistry-FindsLatest _ i t
        (perform_all-IsRegistry es (new_pipeline w) (new_pipeline-IsRegistry w)) at_i
