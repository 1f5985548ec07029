-- ===== src/Config/Settings.antt =====
-- The checks of the settings, _normalize_poll_interval and _validate of
-- src/morningstar_modbus/config/settings.py, and the settings that they read. A setting has the type
-- that its dataclass declares; the reading of the TOML file and the number of addresses of a subnet,
-- which ipaddress counts, are arguments. A refusal names the setting.
pub mod Accepts
pub mod Floor
pub mod Nan
mod Tests
use morningstar_modbus_api.Prelude.{
  ℕ, ◌+◌, Bool, true, false, not, Option, none, some, List, [], ◌∷◌, ◌++◌, ◌&&◌, ◌||◌, leb, ltb,
  ◌==◌, all, any, length, if◌then◌else◌, map,
}
use morningstar_modbus_api.Prelude.Text.{Text, text, text_eq, strip, starts_with}
use morningstar_modbus_api.Prelude.Int.{ℤ, pos, leb_ℤ, ltb_ℤ}
use morningstar_modbus_api.Prelude.Floats.{Floats}
use morningstar_modbus_api.Errors.{Result, ok, err, value_error, setting, ◌>>=◌, ◌>>◌}
use morningstar_modbus_api.Polling.AutoPoll.{below_max, is_nil}

-- watch.poll_interval_seconds as the file gives it: a str, a number, or anything else.
pub data PollInterval (Real : Type 0) : Type 0 where
  written : Text → PollInterval Real
  seconds : Real → PollInterval Real
  unusable : PollInterval Real

pub record StorageConfig (Real : Type 0) : Type 0 where
  pub maintenance_interval_seconds : Real
  pub hot_days : ℤ
  pub warm_days : ℤ
  pub cool_days : ℤ
  pub warm_bucket_seconds : ℤ
  pub cool_bucket_seconds : ℤ
  pub cold_bucket_seconds : ℤ
  pub archive_batch_rows : ℤ
  pub parquet_compression_level : ℤ
  pub incremental_vacuum_pages : ℤ
  pub archive_dir : Text

pub record WatchConfig (Real : Type 0) : Type 0 where
  pub poll_interval_seconds : PollInterval Real
  pub discovery_interval_seconds : Real
  pub unit_ids : List ℤ
  pub max_tcp_concurrency : ℤ
  pub failure_threshold : ℤ
  pub retry_backoff_initial_seconds : Real
  pub retry_backoff_max_seconds : Real

pub record HistoryBackfillConfig (Real : Type 0) : Type 0 where
  pub max_days : ℤ
  pub calendar_timezone : Text
  pub http_port : ℤ
  pub http_path : Text
  pub timeout_seconds : Real
  pub max_response_bytes : ℤ

pub record SystemApiConfig : Type 0 where
  pub default_uid : Text
  pub default_name : Text

pub record SnmpTrapConfig : Type 0 where
  pub host : Text
  pub port : ℤ
  pub max_packet_bytes : ℤ

pub record PollBenchmarkConfig (Real : Type 0) : Type 0 where
  pub intervals_seconds : List Real
  pub samples_per_interval : ℤ
  pub min_success_rate : Real
  pub max_p95_interval_ratio : Real
  pub max_deadline_miss_rate : Real
  pub max_request_failure_rate : Real
  pub max_bus_utilization_percent : Real
  pub minimum_interval_seconds : Real
  pub auto_fallback_interval_seconds : Real

pub record AppConfig (Real : Type 0) : Type 0 where
  pub telemetry_write_interval_seconds : Real
  pub storage : StorageConfig Real
  pub watch : WatchConfig Real
  pub backfill : HistoryBackfillConfig Real
  pub system : SystemApiConfig
  pub snmp : SnmpTrapConfig
  pub poll_benchmark : PollBenchmarkConfig Real
  pub subnets : List Text

-- The tests in their order, each of which refuses a setting.
abbrev pub refuse_first : List (Bool × Text) → Result (Unit {0})
refuse_first [] = ok tt
refuse_first ((test, name) ∷ tests) =
    let rest = refuse_first tests in if test then err (value_error (setting name)) else rest

-- not low <= n <= high
abbrev pub beyond : ℤ → ℤ → ℤ → Bool
beyond low n high = not (leb_ℤ low n && leb_ℤ n high)

-- not s.strip()
abbrev is_blank : Text → Bool
is_blank s = is_nil (strip s)

-- s.lower() of ASCII
abbrev lower : ℕ → ℕ
lower c = if leb 65 c && leb c 90 then c + 32 else c

-- A character of [A-Za-z0-9_.:-]
abbrev is_uid_char : ℕ → Bool
is_uid_char c =
    (leb 65 c && leb c 90)
    || (leb 97 c && leb c 122)
    || (leb 48 c && leb c 57)
    || c == 95
    || c == 46
    || c == 58
    || c == 45

abbrev pub storage_tests : (F : Floats) → StorageConfig F.Real → List (Bool × Text)
storage_tests F s =
    (F.less s.maintenance_interval_seconds (F.of_ℕ 60), text "maintenance_interval_seconds")
    ∷ (
      not (
          leb_ℤ (pos 1) s.hot_days
          && leb_ℤ s.hot_days s.warm_days
          && leb_ℤ s.warm_days s.cool_days),
      text "hot_days",
    )
    ∷ (ltb_ℤ s.warm_bucket_seconds (pos 1), text "warm_bucket_seconds")
    ∷ (ltb_ℤ s.cool_bucket_seconds (pos 1), text "cool_bucket_seconds")
    ∷ (ltb_ℤ s.cold_bucket_seconds (pos 1), text "cold_bucket_seconds")
    ∷ (
      not (
          leb_ℤ s.warm_bucket_seconds s.cool_bucket_seconds
          && leb_ℤ s.cool_bucket_seconds s.cold_bucket_seconds),
      text "bucket_seconds",
    )
    ∷ (beyond (pos 100) s.archive_batch_rows (pos 1000000), text "archive_batch_rows")
    ∷ (beyond (pos 1) s.parquet_compression_level (pos 22), text "parquet_compression_level")
    ∷ (ltb_ℤ s.incremental_vacuum_pages (pos 1), text "incremental_vacuum_pages")
    ∷ (is_blank s.archive_dir, text "archive_dir")
    ∷ []

-- x <= 0
abbrev pub is_not_positive : (F : Floats) → F.Real → Bool
is_not_positive F x = F.less x (F.of_ℕ 0) || F.equal x (F.of_ℕ 0)

abbrev pub watch_tests : (F : Floats) → WatchConfig F.Real → List (Bool × Text)
watch_tests F w =
    (not (all (λ unit. leb_ℤ (pos 1) unit && leb_ℤ unit (pos 247)) w.unit_ids), text "unit_ids")
    ∷ (beyond (pos 1) w.max_tcp_concurrency (pos 256), text "max_tcp_concurrency")
    ∷ (ltb_ℤ w.failure_threshold (pos 1), text "failure_threshold")
    ∷ (is_not_positive F w.retry_backoff_initial_seconds, text "retry_backoff_initial_seconds")
    ∷ (
      F.less w.retry_backoff_max_seconds w.retry_backoff_initial_seconds,
      text "retry_backoff_max_seconds",
    )
    ∷ []

abbrev pub backfill_tests : (F : Floats) → HistoryBackfillConfig F.Real → List (Bool × Text)
backfill_tests F b =
    (beyond (pos 1) b.max_days (pos 200), text "max_days")
    ∷ (is_blank b.calendar_timezone, text "calendar_timezone")
    ∷ (beyond (pos 1) b.http_port (pos 65535), text "http_port")
    ∷ (not (starts_with (text "/") b.http_path), text "http_path")
    ∷ (
      not (all (λ c. ltb c 128) b.http_path) || any (λ c. c == 13 || c == 10) b.http_path,
      text "http_path",
    )
    ∷ (is_not_positive F b.timeout_seconds, text "timeout_seconds")
    ∷ (beyond (pos 16384) b.max_response_bytes (pos 8388608), text "max_response_bytes")
    ∷ []

abbrev pub system_tests : SystemApiConfig → List (Bool × Text)
system_tests s =
    (is_nil s.default_uid || not (all is_uid_char s.default_uid), text "default_uid")
    ∷ (is_blank s.default_name, text "default_name")
    ∷ (ltb 128 (length s.default_name), text "default_name")
    ∷ []

abbrev pub snmp_tests : SnmpTrapConfig → List (Bool × Text)
snmp_tests s =
    (beyond (pos 1) s.port (pos 65535), text "port")
    ∷ (is_blank s.host, text "host")
    ∷ (beyond (pos 512) s.max_packet_bytes (pos 65507), text "max_packet_bytes")
    ∷ []

-- not low <= x <= high, of floats
abbrev no_rate : (F : Floats) → F.Real → Bool
no_rate F x =
    not (
      (F.less (F.of_ℕ 0) x || F.equal (F.of_ℕ 0) x)
      && (F.less x (F.of_ℕ 1) || F.equal x (F.of_ℕ 1)))

abbrev pub interval_tests : (F : Floats) → PollBenchmarkConfig F.Real → List (Bool × Text)
interval_tests F b =
    (is_not_positive F b.minimum_interval_seconds, text "minimum_interval_seconds")
    ∷ (is_nil b.intervals_seconds, text "intervals_seconds")
    ∷ (
      any (λ interval. F.less interval b.minimum_interval_seconds) b.intervals_seconds,
      text "intervals_seconds",
    )
    ∷ (ltb_ℤ b.samples_per_interval (pos 3), text "samples_per_interval")
    ∷ (is_not_positive F b.auto_fallback_interval_seconds, text "auto_fallback_interval_seconds")
    ∷ (
      below_max F b.auto_fallback_interval_seconds b.intervals_seconds,
      text "auto_fallback_interval_seconds",
    )
    ∷ []

abbrev pub rate_tests : (F : Floats) → PollBenchmarkConfig F.Real → List (Bool × Text)
rate_tests F b =
    (no_rate F b.min_success_rate, text "min_success_rate")
    ∷ (no_rate F b.max_p95_interval_ratio, text "max_p95_interval_ratio")
    ∷ (no_rate F b.max_deadline_miss_rate, text "max_deadline_miss_rate")
    ∷ (no_rate F b.max_request_failure_rate, text "max_request_failure_rate")
    ∷ (
      not (
          F.less (F.of_ℕ 0) b.max_bus_utilization_percent
          && (F.less b.max_bus_utilization_percent (F.of_ℕ 100)
              || F.equal b.max_bus_utilization_percent (F.of_ℕ 100))),
      text "max_bus_utilization_percent",
    )
    ∷ []

-- The checks of the benchmark.
abbrev pub check_benchmark : (F : Floats) → PollBenchmarkConfig F.Real → Result (Unit {0})
check_benchmark F b = refuse_first (interval_tests F b) >> refuse_first (rate_tests F b)

module _ (F : Floats) where
  -- The interval, or none for "auto".
  unfoldable pub normalize_poll_interval : PollInterval F.Real → Result (Option F.Real)
  normalize_poll_interval (written s) =
      if text_eq (map lower (strip s)) (text "auto")
      then ok none
      else err (value_error (setting (text "poll_interval_seconds")))
  normalize_poll_interval (seconds x) =
      if is_not_positive F x
      then err (value_error (setting (text "poll_interval_seconds")))
      else ok (some x)
  normalize_poll_interval unusable = err (value_error (setting (text "poll_interval_seconds")))

module _ (F : Floats) (num_addresses : Text → Result ℕ) where
  abbrev pub check_subnets : List Text → Result (Unit {0})
  check_subnets [] = ok tt
  check_subnets (subnet ∷ subnets) = num_addresses subnet >>= λ n.
      refuse_first ((ltb 4096 n, text "subnets") ∷ []) >> check_subnets subnets

  -- The checks ahead of those of the benchmark.
  abbrev pub general_tests : AppConfig F.Real → List (Bool × Text)
  general_tests c =
      (is_not_positive F c.watch.discovery_interval_seconds, text "discovery_interval_seconds")
      ∷ (
        F.less c.telemetry_write_interval_seconds (F.of_ℕ 1),
        text "telemetry_write_interval_seconds",
      )
      ∷ (storage_tests F c.storage
          ++ watch_tests F c.watch
          ++ backfill_tests F c.backfill
          ++ system_tests c.system
          ++ snmp_tests c.snmp)

  -- The checks of _validate behind that of the poll interval.
  abbrev pub check_all : AppConfig F.Real → Result (Unit {0})
  check_all c =
      refuse_first (general_tests c)
      >> check_benchmark F c.poll_benchmark
      >> check_subnets c.subnets

  -- _validate, which returns the poll interval that it stores.
  unfoldable pub validate : AppConfig F.Real → Result (Option F.Real)
  validate c = do
    interval ← normalize_poll_interval F c.watch.poll_interval_seconds
    check_all c
    ok interval
