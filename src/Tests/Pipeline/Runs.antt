-- ===== src/Tests/Pipeline/Runs.antt =====
-- Runs of the pipeline, and the theorems about goroutines and builds applied to them.
use chef_infra.Base.{
  String, ◌↔◌, ℕ, zero, suc, ◌≡◌, ◌⊎◌, refl, string_dec, true, false, none, some, List, [], ◌∷◌,
  get_elem?, ◌++◌,
}
use chef_infra.Base.Result.{ok, err}
use chef_infra.Base.Dict.{lookup, insert}
use chef_infra.Pipeline.Types.{Build, building, success, failed, cancelled}
use chef_infra.Pipeline.BuildContext.{new_build_context, cleanup_context}
use chef_infra.Pipeline.Goroutine.{Task, making_context, reporting, finished, step}
use chef_infra.Pipeline.{
  Pipeline, Event, start, cancel, run, go_on, new_pipeline, new_task, find_task, writing_status,
  begin_cancel, find_building, go_on_cancel, cancel_at, update_task, get_build, start_build,
  cancel_build, run_task, perform, perform_all,
}
use chef_infra.Pipeline.Statuses.{finished_status}
use chef_infra.Pipeline.Cancels.{IsBusy, cancel_build_outcomes}
use chef_infra.Pipeline.Registry.{FindsLatest, get_build_reached}
use chef_infra.Pipeline.Finality.{
  is_cancelling, finished_stays, failed_with, failed_for_good, cancelled_for_good,
}
use chef_infra.Tests.Pipeline.Samples.{deps, config, build}

abbrev times : ℕ → ℕ → List Event
times zero i = []
times (suc n) i = run i ∷ times n i

abbrev after : List Event → Pipeline ℕ
after es = perform_all deps config es (new_pipeline 0)

-- A call of `CancelBuild` with nothing in between.
abbrev cancel_whole : String → List Event
cancel_whole id = cancel id ∷ go_on ∷ go_on ∷ go_on ∷ []

-- A build that is cancelled before its builder runs.
abbrev cancelled_build : List Event
cancelled_build = start (build "b1") ∷ (times 5 0 ++ cancel_whole "b1")

cancelled_at_first :
    (get_build "b1" (after cancelled_build))
    ≡ ok (record (build "b1") { status = cancelled; cancel_func = true; complete_time = some 0 })
unfolding perform_all perform start_build begin_cancel find_building go_on_cancel cancel_at
    update_task run_task get_build find_task step new_build_context cleanup_context lookup insert
    string_dec
cancelled_at_first = refl

-- The builder sees that it is cancelled, and the goroutine has its error to report.
abbrev about_to_report : List Event
about_to_report = cancelled_build ++ times 3 0

abbrev reporting_task : Task ℕ
reporting_task = record {
  build = record (build "b1") { status = cancelled; cancel_func = true; complete_time = some 0 };
  pc = reporting (some "build failed: context canceled");
  is_cancelled = true;
}

reports :
    (get_elem? (after about_to_report).tasks 0 ≡ some reporting_task)
    × (is_cancelling 0 (after about_to_report) ≡ false)
unfolding perform_all perform start_build begin_cancel find_building go_on_cancel cancel_at
    update_task run_task find_task step new_build_context cleanup_context lookup insert string_dec
    is_cancelling
reports = (refl, refl)

failed_for_good_example :
    get_elem?
      (perform_all deps config
        (run 0 ∷ (cancel_whole "b1" ++ times 2 0))
        (after about_to_report)).tasks
      0
    ≡ some (failed_with deps config "build failed: context canceled" reporting_task)
failed_for_good_example =
    failed_for_good deps config 0 about_to_report (cancel_whole "b1" ++ times 2 0) 0 reporting_task
      "build failed: context canceled" reports.0 refl reports.1

-- The goroutine ends between the check of a call of `CancelBuild` and its writes.
abbrev overtaken : List Event
overtaken =
    start (build "b1") ∷ (times 5 0 ++ (cancel "b1" ∷ go_on ∷ (times 4 0 ++ (go_on ∷ go_on ∷ []))))

abbrev left_as : Task ℕ
left_as = record {
  build = record (build "b1") {
    status = cancelled;
    cancel_func = true;
    complete_time = some 0;
    error_message = "build failed: context canceled";
  };
  pc = finished;
  is_cancelled = true;
}

ends_cancelled :
    (get_elem? (after overtaken).tasks 0 ≡ some left_as)
    × (is_cancelling 0 (after overtaken) ≡ false)
unfolding perform_all perform start_build begin_cancel find_building go_on_cancel cancel_at
    update_task run_task find_task step new_build_context cleanup_context lookup insert string_dec
    is_cancelling
ends_cancelled = (refl, refl)

finished_status_example :
    (left_as.build.status ≡ success)
    ⊎ (left_as.build.status ≡ failed)
    ⊎ (left_as.build.status ≡ cancelled)
finished_status_example = finished_status deps config 0 overtaken 0 left_as ends_cancelled.0 refl

finished_stays_example :
    get_elem?
      (perform_all deps config
        (cancel "b1" ∷ run 0 ∷ start (build "b1") ∷ [])
        (after overtaken)).tasks
      0
    ≡ some left_as
finished_stays_example =
    finished_stays deps config 0 overtaken (cancel "b1" ∷ run 0 ∷ start (build "b1") ∷ []) 0 left_as
      ends_cancelled.0 refl ends_cancelled.1

-- The same schedule up to the writes of `CancelBuild`.
abbrev overtaking : List Event
overtaking = start (build "b1") ∷ (times 5 0 ++ (cancel "b1" ∷ go_on ∷ times 4 0))

abbrev failed_task : Task ℕ
failed_task = record left_as {
  build = record left_as.build { status = failed; complete_time = none };
}

overtakes :
    (get_elem? (after overtaking).tasks 0 ≡ some failed_task)
    × ((after overtaking).canceller ≡ some (record { task = 0; pc = writing_status }))
unfolding perform_all perform start_build begin_cancel find_building go_on_cancel cancel_at
    update_task run_task find_task step new_build_context cleanup_context lookup insert string_dec
overtakes = (refl, refl)

cancelled_for_good_example :
    (t' : Task ℕ) × (get_elem?
        (perform_all deps config (go_on ∷ go_on ∷ cancel_whole "b1") (after overtaking)).tasks
        0
      ≡ some t')
    × (t'.build.status ≡ cancelled)
    × (t'.build.complete_time ≡ some (deps.os.now (after overtaking).world).0)
cancelled_for_good_example =
    cancelled_for_good deps config 0 overtaking (cancel_whole "b1") 0 failed_task overtakes.0 refl
      overtakes.1

-- A pipeline whose build is building.
abbrev busy_task : Task ℕ
busy_task = record {
  build = record (build "b1") { status = building; cancel_func = true };
  pc = making_context;
  is_cancelled = false;
}

abbrev busy : Pipeline ℕ
busy = record { world = 7; builds = ("b1", 0) ∷ []; tasks = busy_task ∷ []; canceller = none }

-- Two builds are started with the same id.
get_build_reached_example : FindsLatest (after (start (build "b1") ∷ start (build "b1") ∷ [])) "b1"
unfolding perform_all perform start_build
get_build_reached_example =
    get_build_reached deps config 0 (start (build "b1") ∷ start (build "b1") ∷ []) 0
      (new_task (build "b1")) refl

cancel_build_outcomes_example :
    (((cancel_build deps config "b1" busy).0 ≡ ok tt) ↔ IsBusy deps config "b1" busy)
    × ((e : String)
        → (cancel_build deps config "b1" busy).0 ≡ err e
        → (cancel_build deps config "b1" busy).1 ≡ busy)
    × ((b : Build)
        → get_build "b1" busy ≡ ok b
        → b.status ≡ building
        → get_build "b1" (cancel_build deps config "b1" busy).1
          ≡ ok (record b { status = cancelled; complete_time = some (deps.os.now busy.world).0 }))
cancel_build_outcomes_example = cancel_build_outcomes deps config "b1" busy
