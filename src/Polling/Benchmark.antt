-- ===== src/Polling/Benchmark.antt =====
-- The evaluation of one tested interval and the report over the stages
-- (percentile, summarize_performance, evaluate_benchmark_stage and build_benchmark_report of
-- src/morningstar_modbus/polling/service.py). The rates per second, which need the timestamps,
-- and the text of a reason are left out.
pub mod Stages
pub mod Passed
pub mod Report
use morningstar_modbus_api.Prelude.{
  ℕ, zero, suc, ◌+◌, ◌-◌, ◌≡◌, Bool, true, false, not, Option, none, some, List, [], ◌∷◌, ◌++◌, map,
  min, length, get_elem?, ◌==◌, if◌then◌else◌,
}
use morningstar_modbus_api.Prelude.Floats.{Floats, sorted, max?, sum}
use morningstar_modbus_api.Errors.{Result, ok, err, index_error, ◌>>=◌, ◌>>◌}
use morningstar_modbus_api.Polling.Samples.{sum_of, PollPerformanceSample}

pub record BenchmarkThresholds (R : Type 0) : Type 0 where
  pub min_success_rate : R
  pub max_p95_interval_ratio : R
  pub max_deadline_miss_rate : R
  pub max_request_failure_rate : R
  pub max_bus_utilization_percent : R

pub data StageReason : Type 0 where
  success_rate_low no_headroom deadlines_missed requests_failed bus_busy : StageReason

pub record Summary (R : Type 0) : Type 0 where
  pub samples : ℕ
  pub success_rate : R
  pub poll_latency_p50_ms : Option R
  pub poll_latency_p95_ms : Option R
  pub poll_latency_p99_ms : Option R
  pub deadline_misses : ℕ
  pub deadline_miss_rate : R
  pub request_count : ℕ
  pub request_failure_rate : R
  pub bus_utilization_percent : Option R
  pub bus_utilization_max_percent : Option R

pub record BenchmarkStage (R : Type 0) : Type 0 where
  pub interval_seconds : R
  pub passed : Bool
  pub summary : Summary R
  pub reasons : List StageReason

pub record PollingBenchmarkReport (R : Type 0) : Type 0 where
  pub stages : List (BenchmarkStage R)
  pub recommended_interval_seconds : Option R
  pub fastest_tested_interval_seconds : Option R

abbrev pub count_if : Bool → ℕ
count_if true = 1
count_if false = 0

abbrev pub element {ℓ} : {A : Type ℓ} → Option A → Result A
element none = err index_error
element (some x) = ok x

-- [x for x in values if x is not None]
abbrev pub present {ℓ} : {A : Type ℓ} → List (Option A) → List A
present [] = []
present (none ∷ xs) = present xs
present (some x ∷ xs) = x ∷ present xs

-- `if test: reasons.append(reason)`, ahead of the later reasons.
abbrev pub because : Bool → StageReason → List StageReason → List StageReason
because true r later = r ∷ later
because false r later = later

module _ (F : Floats) where
  abbrev pub hundredth : ℕ → F.Real
  hundredth n = F.divide (F.of_ℕ n) (F.of_ℕ 100)

  abbrev interpolate : List F.Real → F.Real → Result (Option F.Real)
  interpolate ordered fraction = do
    let position = F.multiply (F.of_ℕ (length ordered - 1)) fraction
    let lower = F.floor position
    let upper = min (lower + 1) (length ordered - 1)
    let weight = F.subtract position (F.of_ℕ lower)
    below ← element (get_elem? ordered lower)
    above ← element (get_elem? ordered upper)
    ok (some (F.add (F.multiply below (F.subtract (F.of_ℕ 1) weight)) (F.multiply above weight)))

  abbrev percentile_of : List F.Real → F.Real → Result (Option F.Real)
  percentile_of [] fraction = ok none
  percentile_of (x ∷ []) fraction = ok (some x)
  percentile_of (x ∷ y ∷ rest) fraction = interpolate (x ∷ y ∷ rest) fraction

  unfoldable pub percentile : List F.Real → F.Real → Result (Option F.Real)
  percentile values fraction = percentile_of (sorted F values) fraction

  -- a / b, or 0.0 for no b
  abbrev pub ratio : ℕ → ℕ → F.Real
  ratio a b = if b == 0 then F.of_ℕ 0 else F.divide (F.of_ℕ a) (F.of_ℕ b)

  abbrev mean : List F.Real → Option F.Real
  mean [] = none
  mean (x ∷ xs) = some (F.divide (sum F (x ∷ xs)) (F.of_ℕ (length (x ∷ xs))))

  unfoldable pub summarize_performance :
      List (PollPerformanceSample F.Real) → Result (Summary F.Real)
  unfolding percentile
  summarize_performance samples = do
    let latencies = map (λ s. PollPerformanceSample.poll_latency_ms s) samples
    let success_count = sum_of (λ s. count_if (PollPerformanceSample.success s)) samples
    let misses = sum_of (λ s. count_if (PollPerformanceSample.deadline_missed s)) samples
    let requests = sum_of (λ s. PollPerformanceSample.request_count s) samples
    let failed = sum_of (λ s. PollPerformanceSample.failed_requests s) samples
    let bus = present (map (λ s. PollPerformanceSample.bus_utilization_percent s) samples)
    p50 ← percentile latencies (hundredth 50)
    p95 ← percentile latencies (hundredth 95)
    p99 ← percentile latencies (hundredth 99)
    ok record {
      samples = length samples;
      success_rate = ratio success_count (length samples);
      poll_latency_p50_ms = p50;
      poll_latency_p95_ms = p95;
      poll_latency_p99_ms = p99;
      deadline_misses = misses;
      deadline_miss_rate = ratio misses (length samples);
      request_count = requests;
      request_failure_rate = ratio failed requests;
      bus_utilization_percent = mean bus;
      bus_utilization_max_percent = max? F bus;
    }

  -- `p95 is None or p95 > limit`, and `bus is not None and bus > limit`
  abbrev exceeds : Bool → Option F.Real → F.Real → Bool
  exceeds missing none limit = missing
  exceeds missing (some x) limit = F.less limit x

  abbrev is_empty : List StageReason → Bool
  is_empty [] = true
  is_empty (r ∷ rs) = false

  -- Why the summary of a stage falls short, in the order of the source.
  unfoldable pub stage_reasons :
      F.Real → BenchmarkThresholds F.Real → Summary F.Real → List StageReason
  stage_reasons interval t s =
      let limit = F.multiply (F.multiply interval (F.of_ℕ 1000)) t.max_p95_interval_ratio in
      let p95 = s.poll_latency_p95_ms in
      let bus = s.bus_utilization_max_percent in
      because (F.less s.success_rate t.min_success_rate) success_rate_low (
        because (exceeds true p95 limit) no_headroom (
          because (F.less t.max_deadline_miss_rate s.deadline_miss_rate) deadlines_missed (
            because (F.less t.max_request_failure_rate s.request_failure_rate) requests_failed
              (because (exceeds false bus t.max_bus_utilization_percent) bus_busy []))))

  unfoldable pub evaluate_benchmark_stage :
      F.Real
      → List (PollPerformanceSample F.Real)
      → BenchmarkThresholds F.Real
      → Result (BenchmarkStage F.Real)
  unfolding summarize_performance stage_reasons
  evaluate_benchmark_stage interval samples thresholds = do
    summary ← summarize_performance samples
    let reasons = stage_reasons interval thresholds summary
    ok record {
      interval_seconds = interval;
      passed = is_empty reasons;
      summary = summary;
      reasons = reasons;
    }

  -- The loop over the stages, with `recommended` and `fastest` as they stand.
  unfoldable pub report_loop :
      List (BenchmarkStage F.Real) → Option F.Real → Option F.Real → Option F.Real × Option F.Real
  report_loop [] recommended fastest = (recommended, fastest)
  report_loop (s ∷ rest) recommended fastest =
      let later = report_loop rest (some s.interval_seconds) (some s.interval_seconds) in
      if s.passed then later else (recommended, some s.interval_seconds)

  unfoldable pub build_benchmark_report :
      List (BenchmarkStage F.Real) → PollingBenchmarkReport F.Real
  unfolding report_loop
  build_benchmark_report stages =
      let (recommended, fastest) = report_loop stages none none in
      record {
        stages = stages;
        recommended_interval_seconds = recommended;
        fastest_tested_interval_seconds = fastest;
      }
