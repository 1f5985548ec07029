-- ===== src/Polling/Tests.antt =====
-- Runs of the polling component on concrete inputs, and the theorems at such inputs.
use morningstar_modbus_api.Prelude.{
  ℕ, ◌+◌, ◌≤◌, ◌≡◌, ◌↔◌, refl, Bool, true, false, none, some, List, [], ◌∷◌, arith, All,
}
use morningstar_modbus_api.Prelude.Text.{text}
use morningstar_modbus_api.Prelude.Floats.{hundredths}
use morningstar_modbus_api.Errors.{ok, err, timeout_error, ◌>>=◌}
use morningstar_modbus_api.Polling.Samples.{
  PollTrafficTracker, new_tracker, begin, finish, estimate_rtu_wire_time_ms,
}
use morningstar_modbus_api.Polling.Traffic.{Sent, record_all, finish_counts}
use morningstar_modbus_api.Polling.Limiter.{
  PollPersistenceLimiter, new_limiter, should_persist, Event, asks, after, writes,
}
use morningstar_modbus_api.Polling.Limiter.Spacing.{should_persist_iff}
use morningstar_modbus_api.Polling.Benchmark.{
  BenchmarkThresholds, BenchmarkStage, Summary, percentile, summarize_performance, stage_reasons,
  evaluate_benchmark_stage,
}
use morningstar_modbus_api.Polling.Benchmark.Passed.{IsHealthy, stage_passed_iff}
use morningstar_modbus_api.Polling.AutoPoll.{
  AutoPollIntervalController, Sample, calibrating, record_samples, stage_failures, conclude,
  current_interval_seconds, observe,
}
use morningstar_modbus_api.Polling.AutoPoll.Runs.{Call, observes, run, step}

abbrev request : List ℕ
request = 1 ∷ 3 ∷ 0 ∷ 8 ∷ 0 ∷ 2 ∷ 69 ∷ 201 ∷ []

abbrev answered : Sent
answered = record {
  unit_id = 1;
  pdu = 3 ∷ 0 ∷ 8 ∷ 0 ∷ 2 ∷ [];
  request = request;
  attempt = record {
    response = 1 ∷ 3 ∷ 4 ∷ 0 ∷ 1 ∷ 0 ∷ 2 ∷ 42 ∷ 50 ∷ [];
    response_pdu = 3 ∷ 4 ∷ 0 ∷ 1 ∷ 0 ∷ 2 ∷ [];
    result = ok (3 ∷ 4 ∷ 0 ∷ 1 ∷ 0 ∷ 2 ∷ []);
  };
}

abbrev unanswered : Sent
unanswered = record {
  unit_id = 1;
  pdu = 3 ∷ 0 ∷ 8 ∷ 0 ∷ 2 ∷ [];
  request = request;
  attempt = record { response = []; response_pdu = []; result = err timeout_error };
}

abbrev tracker : PollTrafficTracker
tracker = new_tracker (text "serial") (some 9600) 2

finish_counts_example :
    let sample =
      finish hundredths 500 20000 true []
        (record_all (answered ∷ unanswered ∷ []) (begin tracker)) in
    (sample.request_count ≡ 2)
    × (sample.failed_requests ≡ 1)
    × (sample.successful_requests + sample.failed_requests ≡ 2)
    × (sample.request_bytes ≡ 16)
    × (sample.response_bytes ≡ 9)
finish_counts_example =
    finish_counts hundredths 500 20000 true [] tracker (answered ∷ unanswered ∷ [])

wire_time_test : estimate_rtu_wire_time_ms hundredths 8 9 1 9600 2 ≡ 2000
unfolding estimate_rtu_wire_time_ms
wire_time_test = refl

abbrev limiter : PollPersistenceLimiter
limiter = record { interval = 10; last_write = [] }

abbrev events : List Event
events =
    asks (text "a") 25
    ∷ asks (text "b") 24
    ∷ asks (text "a") 19
    ∷ asks (text "b") 12
    ∷ asks (text "a") 12
    ∷ []

limiter_made : new_limiter 10 ≡ ok limiter
unfolding new_limiter
limiter_made = refl

should_persist_iff_example :
    ((should_persist (text "a") 35 (after limiter events)).1 ≡ true)
    ↔ All (λ w. w + 10 ≤ 35) (writes limiter (text "a") events)
should_persist_iff_example =
    should_persist_iff 10 limiter (text "a") 35 events limiter_made (omega arith)

writes_test : writes limiter (text "a") events ≡ 25 ∷ 12 ∷ []
unfolding writes after should_persist
writes_test = refl

median : percentile hundredths (700 ∷ 300 ∷ 500 ∷ 600 ∷ []) 50 ≡ ok (some 550)
unfolding percentile
median = refl

-- A poll of the given latency, in hundredths of a millisecond.
abbrev poll : ℕ → Sample hundredths
poll latency = record {
  transport = text "tcp";
  configured_interval_seconds = 500;
  poll_latency_ms = latency;
  request_count = 4;
  successful_requests = 4;
  failed_requests = 0;
  request_bytes = 32;
  response_bytes = 60;
  estimated_wire_time_ms = none;
  bus_utilization_percent = none;
  deadline_missed = false;
  success = true;
  error = [];
}

abbrev thresholds : BenchmarkThresholds ℕ
thresholds = record {
  min_success_rate = 98;
  max_p95_interval_ratio = 80;
  max_deadline_miss_rate = 5;
  max_request_failure_rate = 2;
  max_bus_utilization_percent = 7000;
}

abbrev polls : List (Sample hundredths)
polls = poll 20000 ∷ poll 25000 ∷ poll 30000 ∷ []

abbrev summary : Summary ℕ
summary = record {
  samples = 3;
  success_rate = 100;
  poll_latency_p50_ms = some 25000;
  poll_latency_p95_ms = some 29500;
  poll_latency_p99_ms = some 29900;
  deadline_misses = 0;
  deadline_miss_rate = 0;
  request_count = 12;
  request_failure_rate = 0;
  bus_utilization_percent = none;
  bus_utilization_max_percent = none;
}

abbrev stage : ℕ → Bool → BenchmarkStage ℕ
stage interval passed = record {
  interval_seconds = interval;
  passed = passed;
  summary = summary;
  reasons = [];
}

evaluated : evaluate_benchmark_stage hundredths 500 polls thresholds ≡ ok (stage 500 true)
unfolding evaluate_benchmark_stage summarize_performance percentile stage_reasons
evaluated = refl

stage_passed_iff_example : (true ≡ true) ↔ IsHealthy hundredths 500 thresholds polls
stage_passed_iff_example =
    stage_passed_iff hundredths 500 polls thresholds (stage 500 true) evaluated

abbrev controller : AutoPollIntervalController hundredths
controller = record {
  intervals_seconds = 500 ∷ 200 ∷ 100 ∷ [];
  samples_per_interval = 3;
  thresholds = thresholds;
  fallback_interval_seconds = 500;
  stage_index = 0;
  last_safe_interval = none;
  locked_interval = none;
  samples = [];
}

abbrev polled : ℕ → Call hundredths
polled latency = observes ((text "a", poll latency) ∷ []) (text "a" ∷ [])

-- Three polls at each interval, of which those at the fastest take too long.
abbrev calls : List (Call hundredths)
calls =
    polled 90000
    ∷ polled 90000
    ∷ polled 90000
    ∷ polled 20000
    ∷ polled 25000
    ∷ polled 30000
    ∷ polled 20000
    ∷ polled 25000
    ∷ polled 30000
    ∷ []

interval_found :
    (do c ← run hundredths controller calls; current_interval_seconds hundredths c) ≡ ok 200
unfolding run step observe calibrating record_samples stage_failures conclude
    current_interval_seconds evaluate_benchmark_stage summarize_performance percentile stage_reasons
interval_found = refl
