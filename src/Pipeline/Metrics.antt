-- ===== src/Pipeline/Metrics.antt =====
-- internal/pipeline/metrics.go. A point in time is a natural number, the zero time is 0, and a
-- duration is the difference of two points, the clock being one that does not run backwards. The
-- map's pointers are not shared, so that a write to a metric is a write to its entry; the mutex makes
-- each method one event.
use chef_infra.Base.{ℕ, ◌-◌, String, none, some, [], ◌≡◌, ◌≢◌, arith}
use chef_infra.Base.Dict.{Dict, lookup, insert, lookup-insert}

pub record BuildMetrics : Type 0 where
  pub start_time : ℕ
  pub end_time : ℕ
  pub build_duration : ℕ
  pub deploy_duration : ℕ
  pub status : String
  pub error_count : ℕ
  pub warning_count : ℕ

abbrev pub Metrics : Type 0
Metrics = Dict BuildMetrics

abbrev pub new_metrics : Metrics
new_metrics = []

abbrev just_started : ℕ → BuildMetrics
just_started now = record {
  start_time = now;
  end_time = 0;
  build_duration = 0;
  deploy_duration = 0;
  status = "running";
  error_count = 0;
  warning_count = 0;
}

-- With `time.Now()`.
unfoldable pub start_build : String → ℕ → Metrics → Metrics
start_build build_id now m = insert build_id (just_started now) m

-- What the end of a build writes.
abbrev ended : ℕ → String → BuildMetrics → BuildMetrics
ended now status metrics = record metrics {
  end_time = now;
  build_duration = now - metrics.start_time;
  status = status;
}

unfoldable pub end_build : String → String → ℕ → Metrics → Metrics
end_build build_id status now m = elim (lookup build_id m) [
  | none ↦ m
  | some metrics ↦ insert build_id (ended now status metrics) m
]

-- After the start and the end of a build, its metrics have the two times, their difference and the
-- status, and the metrics of every other build are as they were.
pub end_build-start_build :
    (build_id other status : String) (started now : ℕ) (m : Metrics)
    → other ≢ build_id
    → let after = end_build build_id status now (start_build build_id started m) in
      ((metrics : BuildMetrics) × (lookup build_id after ≡ some metrics)
        × (metrics.start_time ≡ started)
        × (metrics.end_time ≡ now)
        × (metrics.build_duration ≡ now - started)
        × (metrics.status ≡ status))
      × (lookup other after ≡ lookup other m)
unfolding start_build end_build
end_build-start_build build_id other status started now m differ =
    let running = just_started started in
    let m' = insert build_id running m in
    let stored : lookup build_id m' ≡ some running =
      ground (arith, lookup-insert build_id build_id running m) in
    let done = ended now status running in
    let same : lookup other (insert build_id done m') ≡ lookup other m =
      ground
        (arith, lookup-insert build_id other done m', lookup-insert build_id other running m) in
    (
      (
        done,
        ground (arith, stored, lookup-insert build_id build_id done m'),
        ground arith,
        ground arith,
        ground arith,
        ground arith,
      ),
      ground (arith, stored, same),
    )
