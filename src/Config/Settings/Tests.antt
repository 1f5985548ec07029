-- ===== src/Config/Settings/Tests.antt =====
-- Settings that are accepted, and some that are not.
use morningstar_modbus_api.Prelude.{
  ℕ, ◌+◌, ◌-◌, ◌*◌, ◌/◌, ◌≡◌, ◌==◌, refl, Bool, false, true, ltb, arith, Option, List, none, some,
  [], ◌∷◌,
}
use morningstar_modbus_api.Prelude.Text.{Text, text}
use morningstar_modbus_api.Prelude.Int.{pos}
use morningstar_modbus_api.Prelude.Floats.{Floats, hundredths}
use morningstar_modbus_api.Errors.{Result, ok, err, value_error, setting}
use morningstar_modbus_api.Config.Settings.{
  AppConfig, seconds, unusable, validate, normalize_poll_interval,
}
use morningstar_modbus_api.Config.Settings
use morningstar_modbus_api.Config.Settings.Accepts.{new_auto_poll}
use morningstar_modbus_api.Config.Settings.Nan.{IsNan, with_nan, validate-with_nan}
use morningstar_modbus_api.Config.Settings.Floor.{HasNumbers, IsSeparated, auto_poll_floor}
use morningstar_modbus_api.Polling.Benchmark.Stages.{HasFractions, IsFraction}
use morningstar_modbus_api.Polling.AutoPoll.{
  AutoPollIntervalController, current_interval_seconds, Sample,
}
use morningstar_modbus_api.Polling.AutoPoll.Runs.{Call, observes, resets, run}

-- A subnet of 256 addresses, and a wider one.
abbrev num_addresses : Text → Result ℕ
num_addresses [] = ok 65536
num_addresses (c ∷ s) = ok 256

-- The default settings, of numbers with two decimal places.
abbrev defaults_of : {Real : Type 0} → (ℕ → Real) → AppConfig Real
defaults_of f = record {
  telemetry_write_interval_seconds = f 100;
  storage = record {
    maintenance_interval_seconds = f 2160000;
    hot_days = pos 7;
    warm_days = pos 30;
    cool_days = pos 180;
    warm_bucket_seconds = pos 10;
    cool_bucket_seconds = pos 60;
    cold_bucket_seconds = pos 300;
    archive_batch_rows = pos 10000;
    parquet_compression_level = pos 19;
    incremental_vacuum_pages = pos 2048;
    archive_dir = text "./morningstar-archive";
  };
  watch = record {
    poll_interval_seconds = Settings.written (text " Auto ");
    discovery_interval_seconds = f 3000;
    unit_ids = pos 1 ∷ [];
    max_tcp_concurrency = pos 32;
    failure_threshold = pos 3;
    retry_backoff_initial_seconds = f 200;
    retry_backoff_max_seconds = f 6000;
  };
  backfill = record {
    max_days = pos 200;
    calendar_timezone = text "local";
    http_port = pos 80;
    http_path = text "/datalog.html";
    timeout_seconds = f 300;
    max_response_bytes = pos 1048576;
  };
  system = record { default_uid = text "sys_default"; default_name = text "default" };
  snmp = record { host = text "127.0.0.1"; port = pos 9162; max_packet_bytes = pos 65507 };
  poll_benchmark = record {
    intervals_seconds = f 100 ∷ f 50 ∷ f 25 ∷ [];
    samples_per_interval = pos 12;
    min_success_rate = f 98;
    max_p95_interval_ratio = f 80;
    max_deadline_miss_rate = f 5;
    max_request_failure_rate = f 2;
    max_bus_utilization_percent = f 7000;
    minimum_interval_seconds = f 25;
    auto_fallback_interval_seconds = f 500;
  };
  subnets = text "192.168.1.0/24" ∷ [];
}

abbrev defaults : AppConfig ℕ
defaults = defaults_of (λ n. n)

-- The same numbers with a NaN.
abbrev both : (ℕ → ℕ → Bool) → Option ℕ → Option ℕ → Bool
both test none b = false
both test (some a) none = false
both test (some a) (some b) = test a b

abbrev lifted : (ℕ → ℕ → ℕ) → Option ℕ → Option ℕ → Option ℕ
lifted f none b = none
lifted f (some a) none = none
lifted f (some a) (some b) = some (f a b)

abbrev whole : Option ℕ → ℕ
whole none = 0
whole (some a) = a / 100

abbrev with_nans : Floats
with_nans = record {
  Real = Option ℕ;
  less = both ltb;
  equal = both (λ a b. a == b);
  add = lifted (λ a b. a + b);
  subtract = lifted (λ a b. a - b);
  multiply = lifted (λ a b. a * b / 100);
  divide = lifted (λ a b. a * 100 / b);
  of_ℕ = λ n. some (n * 100);
  floor = whole;
}

none-IsNan : IsNan with_nans none
none-IsNan = record { below = λ x. refl; above = above }
  where
    above : (x : Option ℕ) → both ltb x none ≡ false
    above none = refl
    above (some a) = refl

-- The fallback of 0.1 seconds is below the minimum of 0.25.
validate-with_nan_example :
    validate with_nans num_addresses (with_nan with_nans none (some 10) (defaults_of some))
    ≡ ok none
unfolding validate normalize_poll_interval
validate-with_nan_example =
    validate-with_nan with_nans num_addresses (defaults_of some) none none (some 10) none-IsNan refl
      refl

separated : IsSeparated hundredths
separated a b c ha hb hc h k = ground arith

numbers : HasNumbers hundredths (AppConfig.poll_benchmark defaults)
numbers = record { intervals = (refl, (refl, (refl, tt))); minimum = refl; fallback = refl }

half : IsFraction hundredths 50
half n = omega arith

fractions : HasFractions hundredths
fractions = record { p50 = half; p95 = λ n. omega arith; p99 = λ n. omega arith }

-- A poll of the given latency, in hundredths of a millisecond.
abbrev poll : ℕ → Sample hundredths
poll latency = record {
  transport = text "tcp";
  configured_interval_seconds = 500;
  poll_latency_ms = latency;
  request_count = 4;
  successful_requests = 4;
  failed_requests = 0;
  request_bytes = 32;
  response_bytes = 60;
  estimated_wire_time_ms = none;
  bus_utilization_percent = none;
  deadline_missed = false;
  success = true;
  error = [];
}

abbrev polled : ℕ → Call hundredths
polled latency = observes ((text "a", poll latency) ∷ []) (text "a" ∷ [])

abbrev calls : List (Call hundredths)
calls = polled 20000 ∷ polled 90000 ∷ resets ∷ polled 40000 ∷ []

auto_poll_floor_example :
    (controller : AutoPollIntervalController hundredths) × (new_auto_poll hundredths
        (AppConfig.poll_benchmark defaults)
        none
      ≡ ok (some controller))
    × ((c' : AutoPollIntervalController hundredths) × (r : ℕ) × (run hundredths controller calls
          ≡ ok c')
        × (current_interval_seconds hundredths c' ≡ ok r)
        × (ltb r 25 ≡ false))
unfolding validate normalize_poll_interval
auto_poll_floor_example =
    auto_poll_floor hundredths num_addresses defaults calls fractions separated numbers refl

wide_subnet :
    validate hundredths num_addresses (record defaults { subnets = [] ∷ [] })
    ≡ err (value_error (setting (text "subnets")))
unfolding validate normalize_poll_interval
wide_subnet = refl

not_a_number :
    normalize_poll_interval hundredths unusable
    ≡ err (value_error (setting (text "poll_interval_seconds")))
unfolding normalize_poll_interval
not_a_number = refl

one_second : normalize_poll_interval hundredths (seconds 100) ≡ ok (some 100)
unfolding normalize_poll_interval
one_second = refl
