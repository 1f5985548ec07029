-- ===== src/Polling/AutoPoll.antt =====
-- AutoPollIntervalController of src/morningstar_modbus/polling/service.py: the interval at which
-- the watcher polls, chosen by what the polls of each interval were like. The controller ids are
-- a list without repetition, in the order of `sorted(controller_ids)`.
pub mod Evidence
pub mod Safety
pub mod Runs
pub mod Within
use morningstar_modbus_api.Prelude.{
  ℕ, zero, suc, ◌+◌, ◌-◌, ◌≡◌, Bool, true, false, not, Option, none, some, List, [], ◌∷◌, ◌++◌,
  ◌||◌, ltb, length, get_elem?, drop, any, if◌then◌else◌,
}
use morningstar_modbus_api.Prelude.Text.{Text}
use morningstar_modbus_api.Prelude.Maps.{lookup, put}
use morningstar_modbus_api.Prelude.Floats.{Floats, max_from, sorted_set_reverse}
use morningstar_modbus_api.Errors.{
  Result, ok, err, value_error, index_error, key_error, no_intervals, few_samples, fallback_range,
  raise_if, ◌>>=◌, ◌>>◌,
}
use morningstar_modbus_api.Polling.Samples.{PollPerformanceSample}
use morningstar_modbus_api.Polling.Benchmark.{
  BenchmarkThresholds, BenchmarkStage, StageReason, element, evaluate_benchmark_stage,
}

module _ (F : Floats) where
  abbrev pub Sample : Type 0
  Sample = PollPerformanceSample F.Real

  abbrev pub Samples : Type 0
  Samples = List (Text × List Sample)

pub record AutoPollIntervalController (F : Floats) : Type 0 where
  pub intervals_seconds : List F.Real
  pub samples_per_interval : ℕ
  pub thresholds : BenchmarkThresholds F.Real
  pub fallback_interval_seconds : F.Real
  pub stage_index : ℕ
  pub last_safe_interval : Option F.Real
  pub locked_interval : Option F.Real
  pub samples : Samples F

-- What the text that `observe` returns says: the controllers that failed and why, or the stage
-- that passed and the next one, or the interval that is kept.
pub data Message (F : Floats) : Type 0 where
  stopped : F.Real → F.Real → List (Text × List StageReason) → Message F
  advanced : F.Real → F.Real → Message F
  selected : F.Real → Message F

abbrev pub is_nil {ℓ} : {A : Type ℓ} → List A → Bool
is_nil [] = true
is_nil (x ∷ xs) = false

module _ (F : Floats) where
  -- `fallback_interval_seconds < max(benchmark_intervals)`; none are refused before.
  abbrev pub below_max : F.Real → List F.Real → Bool
  below_max fallback [] = false
  below_max fallback (x ∷ xs) = F.less fallback (max_from F x xs)

  unfoldable pub new_controller :
      List F.Real → ℕ → BenchmarkThresholds F.Real → F.Real → Result (AutoPollIntervalController F)
  new_controller intervals samples_per_interval thresholds fallback = do
    raise_if (is_nil intervals) (value_error no_intervals)
    raise_if (ltb samples_per_interval 3) (value_error few_samples)
    raise_if (below_max fallback intervals) (value_error fallback_range)
    ok record {
      intervals_seconds = sorted_set_reverse F (fallback ∷ intervals);
      samples_per_interval = samples_per_interval;
      thresholds = thresholds;
      fallback_interval_seconds = fallback;
      stage_index = 0;
      last_safe_interval = none;
      locked_interval = none;
      samples = [];
    }

  abbrev interval_at : List F.Real → ℕ → Result F.Real
  interval_at xs i = element (get_elem? xs i)

  abbrev locked_or : Option F.Real → Result F.Real → Result F.Real
  locked_or none stage = stage
  locked_or (some x) stage = ok x

  unfoldable pub current_interval_seconds : AutoPollIntervalController F → Result F.Real
  current_interval_seconds c =
      locked_or c.locked_interval (interval_at c.intervals_seconds c.stage_index)

  abbrev is_none : Option F.Real → Bool
  is_none none = true
  is_none (some x) = false

  unfoldable pub calibrating : AutoPollIntervalController F → Bool
  calibrating c = is_none c.locked_interval

  unfoldable pub reset : AutoPollIntervalController F → AutoPollIntervalController F
  reset c = record c {
    stage_index = 0;
    last_safe_interval = none;
    locked_interval = none;
    samples = [];
  }

  abbrev or_empty : Option (List (Sample F)) → List (Sample F)
  or_empty none = []
  or_empty (some ss) = ss

  -- self._samples.get(controller_id, ())
  abbrev pub kept : Text → Samples F → List (Sample F)
  kept id store = or_empty (lookup id store)

  abbrev append_sample : Text → Option (Sample F) → Samples F → Samples F
  append_sample id none store = store
  append_sample id (some s) store = put id (kept id store ++ s ∷ []) store

  unfoldable pub record_samples : List (Text × Sample F) → List Text → Samples F → Samples F
  record_samples samples [] store = store
  record_samples samples (id ∷ ids) store =
      record_samples samples ids (append_sample id (lookup id samples) store)

  -- self._samples[controller_id][-n:], of n > 0
  abbrev last_samples : ℕ → List (Sample F) → List (Sample F)
  last_samples n ss = drop (length ss - n) ss

  abbrev present_or_error : Option (List (Sample F)) → Result (List (Sample F))
  present_or_error none = err key_error
  present_or_error (some ss) = ok ss

  abbrev stored : Text → Samples F → Result (List (Sample F))
  stored id store = present_or_error (lookup id store)

  abbrev note_stage :
      Text → BenchmarkStage F.Real → List (Text × List StageReason) → List (Text × List StageReason)
  note_stage id stage rest = if stage.passed then rest else (id, stage.reasons) ∷ rest

  -- The loop over `sorted(controller_ids)`.
  unfoldable pub stage_failures :
      F.Real
      → ℕ
      → BenchmarkThresholds F.Real
      → Samples F
      → List Text
      → Result (List (Text × List StageReason))
  stage_failures interval n thresholds store [] = ok []
  stage_failures interval n thresholds store (id ∷ ids) = do
    ss ← stored id store
    stage ← evaluate_benchmark_stage F interval (last_samples n ss) thresholds
    rest ← stage_failures interval n thresholds store ids
    ok (note_stage id stage rest)

  -- `self._last_safe_interval or self.fallback_interval_seconds`: 0.0 counts as none.
  abbrev safe_or : Option F.Real → F.Real → F.Real
  safe_or none fallback = fallback
  safe_or (some x) fallback = if F.equal x (F.of_ℕ 0) then fallback else x

  abbrev advance :
      F.Real
      → Option F.Real
      → AutoPollIntervalController F
      → AutoPollIntervalController F × Option (Message F)
  advance interval none c = (record c { locked_interval = some interval }, some (selected interval))
  advance interval (some next) c =
      (record c { stage_index = c.stage_index + 1 }, some (advanced interval next))

  -- The end of `observe`, with the failures of the stage.
  unfoldable pub conclude :
      F.Real
      → List (Text × List StageReason)
      → AutoPollIntervalController F
      → AutoPollIntervalController F × Option (Message F)
  conclude interval (f ∷ fs) c =
      let safe = safe_or c.last_safe_interval c.fallback_interval_seconds in
      (
        record c { samples = []; locked_interval = some safe },
        some (stopped interval safe (f ∷ fs)),
      )
  conclude interval [] c =
      advance interval (get_elem? c.intervals_seconds (c.stage_index + 1))
        (record c { samples = []; last_safe_interval = some interval })

  unfoldable pub observe :
      List (Text × Sample F)
      → List Text
      → AutoPollIntervalController F
      → Result (AutoPollIntervalController F × Option (Message F))
  unfolding calibrating record_samples conclude current_interval_seconds
  observe samples ids c =
      let recorded = record_samples samples ids c.samples in
      let c' = record c { samples = recorded } in
      let waits = any (λ id. ltb (length (kept id recorded)) c.samples_per_interval) ids in
      if not (calibrating c) || is_nil ids
      then ok (c, none)
      else if waits
      then ok (c', none)
      else do
        interval ← current_interval_seconds c'
        failures ← stage_failures interval c.samples_per_interval c.thresholds recorded ids
        ok (conclude interval failures c')
