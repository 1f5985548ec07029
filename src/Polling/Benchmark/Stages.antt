-- ===== src/Polling/Benchmark/Stages.antt =====
-- The evaluation of a stage of any samples (src/morningstar_modbus/polling/service.py).
use morningstar_modbus_api.Prelude.{
  ℕ, zero, suc, ◌+◌, ◌-◌, ◌≤◌, ◌<◌, ◌≡◌, refl, inl, inr, Option, none, some, List, [], ◌∷◌, map,
  min, arith, length, get_elem?, Bool-cases,
}
use morningstar_modbus_api.Prelude.Floats.{Floats, sorted, insert}
use morningstar_modbus_api.Errors.{ok, >>=-ok}
use morningstar_modbus_api.Polling.Samples.{PollPerformanceSample}
use morningstar_modbus_api.Polling.Benchmark.{
  BenchmarkThresholds, BenchmarkStage, Summary, percentile_of, interpolate, percentile,
  summarize_performance, evaluate_benchmark_stage, hundredth,
}

-- The position of a percentile is a position of the list: 0 <= fraction <= 1, in floats.
abbrev pub IsFraction : (F : Floats) → F.Real → Type 0
IsFraction F fraction = (n : ℕ) → F.floor (F.multiply (F.of_ℕ n) fraction) ≤ n

pub get_elem?_in_range {ℓ} :
    {A : Type ℓ} (xs : List A) (i : ℕ) → i < length xs → (x : A) × (get_elem? xs i ≡ some x)
get_elem?_in_range [] i h = absurd (omega arith)
get_elem?_in_range (x ∷ xs) zero h = (x, refl)
get_elem?_in_range (x ∷ xs) (suc i) h = get_elem?_in_range xs i (omega arith)

module _ (F : Floats) where
  interpolate_total :
      (x : F.Real) (xs : List F.Real) (fraction : F.Real)
      → IsFraction F fraction
      → (r : F.Real) × (interpolate F (x ∷ xs) fraction ≡ ok (some r))
  interpolate_total x xs fraction h =
      let last = length (x ∷ xs) - 1 in
      let lower = F.floor (F.multiply (F.of_ℕ last) fraction) in
      let (a, ea) = get_elem?_in_range (x ∷ xs) lower (omega (arith, h last)) in
      let (b, eb) = get_elem?_in_range (x ∷ xs) (min (lower + 1) last) (omega arith) in
      let weight = F.subtract (F.multiply (F.of_ℕ last) fraction) (F.of_ℕ lower) in
      let r = F.add (F.multiply a (F.subtract (F.of_ℕ 1) weight)) (F.multiply b weight) in
      (r, rw ea (rw eb refl))

  percentile_of_total :
      (x : F.Real) (xs : List F.Real) (fraction : F.Real)
      → IsFraction F fraction
      → (r : F.Real) × (percentile_of F (x ∷ xs) fraction ≡ ok (some r))
  percentile_of_total x [] fraction h = (x, refl)
  percentile_of_total x (y ∷ rest) fraction h = interpolate_total x (y ∷ rest) fraction h

  insert_cons :
      (x : F.Real) (ys : List F.Real) → (z : F.Real) × (zs : List F.Real) × (insert F x ys ≡ z ∷ zs)
  insert_cons x [] = (x, [], refl)
  insert_cons x (y ∷ ys) = elim (Bool-cases (F.less x y)) [
    | inl h ↦ (x, y ∷ ys, rw h refl)
    | inr h ↦ (y, insert F x ys, rw h refl)
  ]

  -- Of one value or more there is a percentile at every fraction that places it inside the list:
  -- no index is out of range.
  pub percentile_total :
      (x : F.Real) (values : List F.Real) (fraction : F.Real)
      → IsFraction F fraction
      → (r : F.Real) × (percentile F (x ∷ values) fraction ≡ ok (some r))
  unfolding percentile
  percentile_total x values fraction h =
      let (z, zs, e) = insert_cons x (sorted F values) in rw e (percentile_of_total z zs fraction h)

  -- The fractions at which a stage is summarized are fractions.
  pub record HasFractions : Type 0 where
    pub p50 : IsFraction F (hundredth F 50)
    pub p95 : IsFraction F (hundredth F 95)
    pub p99 : IsFraction F (hundredth F 99)

  abbrev pub latencies : List (PollPerformanceSample F.Real) → List F.Real
  latencies ss = map (λ s. PollPerformanceSample.poll_latency_ms s) ss

  latency_percentile :
      (ss : List (PollPerformanceSample F.Real)) (fraction : F.Real)
      → IsFraction F fraction
      → (r : Option F.Real) × (percentile F (latencies ss) fraction ≡ ok r)
  unfolding percentile
  latency_percentile [] fraction h = (none, refl)
  latency_percentile (s ∷ ss) fraction h =
      let (r, e) = percentile_total s.poll_latency_ms (latencies ss) fraction h in (some r, e)

  summarize_total :
      (ss : List (PollPerformanceSample F.Real))
      → HasFractions
      → (s : Summary F.Real) × (summarize_performance F ss ≡ ok s)
  unfolding summarize_performance
  summarize_total ss h =
      let (p50, e50) = latency_percentile ss _ h.p50 in
      let (p95, e95) = latency_percentile ss _ h.p95 in
      let (p99, e99) = latency_percentile ss _ h.p99 in
      >>=-ok _ _ p50 e50 (>>=-ok _ _ p95 e95 (>>=-ok _ _ p99 e99 (_, refl)))

  -- A stage is always evaluated, whatever its samples are.
  pub evaluate_total :
      (interval : F.Real) (ss : List (PollPerformanceSample F.Real))
      (t : BenchmarkThresholds F.Real)
      → HasFractions
      → (stage : BenchmarkStage F.Real) × (evaluate_benchmark_stage F interval ss t ≡ ok stage)
  unfolding evaluate_benchmark_stage
  evaluate_total interval ss t h = let (s, e) = summarize_total ss h in >>=-ok _ _ s e (_, refl)
