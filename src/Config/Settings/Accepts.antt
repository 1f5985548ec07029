-- ===== src/Config/Settings/Accepts.antt =====
-- What accepted settings are good for (src/morningstar_modbus/config/settings.py,
-- src/morningstar_modbus/polling/service.py).
use morningstar_modbus_api.Prelude.{
  ℕ, ◌≡◌, refl, ◌∙◌, Bool, true, false, Option, none, some, List, [], ◌∷◌, ltb, All, arith,
}
use morningstar_modbus_api.Prelude.Text.{Text}
use morningstar_modbus_api.Prelude.Int.{ℤ, pos, ltb_ℤ, pos_part}
use morningstar_modbus_api.Prelude.Floats.{Floats, sorted_set_reverse}
use morningstar_modbus_api.Errors.{Result, ok, err, >>=-eq-ok, ◌>>=◌, ◌>>◌}
use morningstar_modbus_api.Catalog.Decode.Needs.{Returns}
use morningstar_modbus_api.Config.Settings.{
  AppConfig, PollBenchmarkConfig, refuse_first, general_tests, interval_tests, validate, check_all,
  check_benchmark, check_subnets, normalize_poll_interval, rate_tests,
}
use morningstar_modbus_api.Polling.AutoPoll.{
  AutoPollIntervalController, new_controller, below_max, is_nil,
}
use morningstar_modbus_api.Polling.Benchmark.{BenchmarkThresholds}

-- No test of a chain that was passed holds.
passed : (tests : List (Bool × Text)) → refuse_first tests ≡ ok tt → All (λ t. t.0 ≡ false) tests
passed [] h = tt
passed ((true, name) ∷ tests) h = cc
passed ((false, name) ∷ tests) h = (refl, passed tests h)

>>-eq-ok :
    {Y : Type 0} (first : Result (Unit {0})) (next : Result Y) {y : Y}
    → (first >> next) ≡ ok y
    → (first ≡ ok tt) × (next ≡ ok y)
>>-eq-ok (err e) next h = cc
>>-eq-ok (ok done) next h = (refl, h)

enough : (z : ℤ) → ltb_ℤ z (pos 3) ≡ false → ltb (pos_part z) 3 ≡ false
enough (pos n) h = ground arith
enough (ℤ.negsuc n) h = ground arith

module _ (F : Floats) where
  -- What Watcher.__init__ makes of the settings: a controller of the interval if that is "auto".
  abbrev pub benchmark_thresholds : PollBenchmarkConfig F.Real → BenchmarkThresholds F.Real
  benchmark_thresholds b = record {
    min_success_rate = b.min_success_rate;
    max_p95_interval_ratio = b.max_p95_interval_ratio;
    max_deadline_miss_rate = b.max_deadline_miss_rate;
    max_request_failure_rate = b.max_request_failure_rate;
    max_bus_utilization_percent = b.max_bus_utilization_percent;
  }

  unfoldable pub new_auto_poll :
      PollBenchmarkConfig F.Real → Option F.Real → Result (Option (AutoPollIntervalController F))
  new_auto_poll b none = do
    controller ←
        new_controller F b.intervals_seconds (pos_part b.samples_per_interval)
          (benchmark_thresholds b) b.auto_fallback_interval_seconds
    ok (some controller)
  new_auto_poll b (some interval) = ok none

  accepted_controller :
      (b : PollBenchmarkConfig F.Real)
      → is_nil b.intervals_seconds ≡ false
      → ltb (pos_part b.samples_per_interval) 3 ≡ false
      → below_max F b.auto_fallback_interval_seconds b.intervals_seconds ≡ false
      → Returns (
          new_controller F b.intervals_seconds
            (pos_part b.samples_per_interval)
            (benchmark_thresholds b)
            b.auto_fallback_interval_seconds)
  unfolding new_controller
  accepted_controller b some_interval samples fallback = (
    record {
      intervals_seconds =
          sorted_set_reverse F (b.auto_fallback_interval_seconds ∷ b.intervals_seconds);
      samples_per_interval = pos_part b.samples_per_interval;
      thresholds = benchmark_thresholds b;
      fallback_interval_seconds = b.auto_fallback_interval_seconds;
      stage_index = 0;
      last_safe_interval = none;
      locked_interval = none;
      samples = [];
    },
    rw some_interval (rw samples (rw fallback refl)),
  )

module _ (F : Floats) (num_addresses : Text → Result ℕ) where
  -- Every part of _validate returned.
  pub record Accepted (c : AppConfig F.Real) (interval : Option F.Real) : Type 0 where
    pub normalized : normalize_poll_interval F c.watch.poll_interval_seconds ≡ ok interval
    pub general : refuse_first (general_tests F num_addresses c) ≡ ok tt
    pub intervals : refuse_first (interval_tests F c.poll_benchmark) ≡ ok tt
    pub rates : refuse_first (rate_tests F c.poll_benchmark) ≡ ok tt
    pub subnets : check_subnets F num_addresses c.subnets ≡ ok tt

  pub validate-Accepted :
      (c : AppConfig F.Real) (interval : Option F.Real)
      → validate F num_addresses c ≡ ok interval
      → Accepted c interval
  unfolding validate
  validate-Accepted c interval h =
      let b = c.poll_benchmark in
      let (i, normalized, checked) =
        >>=-eq-ok (normalize_poll_interval F c.watch.poll_interval_seconds)
          (λ i. check_all F num_addresses c >> ok i) h in
      let (all_passed, returned) = >>-eq-ok (check_all F num_addresses c) (ok i) checked in
      let (most, subnets) =
        >>-eq-ok (refuse_first (general_tests F num_addresses c) >> check_benchmark F b)
          (check_subnets F num_addresses c.subnets) all_passed in
      let (general, benchmark) =
        >>-eq-ok (refuse_first (general_tests F num_addresses c)) (check_benchmark F b) most in
      let (intervals, rates) =
        >>-eq-ok (refuse_first (interval_tests F b)) (refuse_first (rate_tests F b)) benchmark in
      record {
        normalized = normalized ∙ returned;
        general = general;
        intervals = intervals;
        rates = rates;
        subnets = subnets;
      }

  pub Accepted-validate :
      (c : AppConfig F.Real) (interval : Option F.Real)
      → Accepted c interval
      → validate F num_addresses c ≡ ok interval
  unfolding validate
  Accepted-validate c interval h =
      rw h.normalized (rw h.general (rw h.intervals (rw h.rates (rw h.subnets refl))))

  pub validate-interval_tests :
      (c : AppConfig F.Real) (interval : Option F.Real)
      → validate F num_addresses c ≡ ok interval
      → All (λ t. t.0 ≡ false) (interval_tests F c.poll_benchmark)
  validate-interval_tests c interval h =
      passed (interval_tests F c.poll_benchmark) (validate-Accepted c interval h).intervals

  -- None of the errors of the constructor is raised on settings that _validate accepts.
  pub validate-new_controller :
      (c : AppConfig F.Real) (interval : Option F.Real)
      → validate F num_addresses c ≡ ok interval
      → Returns (
          new_controller F c.poll_benchmark.intervals_seconds
            (pos_part c.poll_benchmark.samples_per_interval)
            (benchmark_thresholds F c.poll_benchmark)
            c.poll_benchmark.auto_fallback_interval_seconds)
  validate-new_controller c interval h =
      let b = c.poll_benchmark in
      let (minimum, (some_interval, (above, (samples, (positive, (fallback, done)))))) =
        validate-interval_tests c interval h in
      accepted_controller F b some_interval (enough b.samples_per_interval samples) fallback
