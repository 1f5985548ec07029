-- ===== src/Polling/Benchmark/Passed.antt =====
-- What a passed stage says of its samples (src/morningstar_modbus/polling/service.py).
use morningstar_modbus_api.Prelude.{
  ℕ, zero, suc, ◌≡◌, ◌↔◌, refl, sym, ap, subst, ◌∙◌, inl, inr, Bool, true, false, Option, none,
  some, List, [], ◌∷◌, map, arith, ◌==◌, length, Bool-cases, if◌then◌else◌,
}
use morningstar_modbus_api.Prelude.Floats.{Floats, max?}
use morningstar_modbus_api.Errors.{ok, ok-injective, >>=-eq-ok}
use morningstar_modbus_api.Polling.Benchmark.Stages.{latencies}
use morningstar_modbus_api.Polling.Samples.{PollPerformanceSample, sum_of}
use morningstar_modbus_api.Polling.Benchmark.{
  BenchmarkThresholds, BenchmarkStage, Summary, StageReason, because, percentile,
  summarize_performance, stage_reasons, exceeds, is_empty, evaluate_benchmark_stage, hundredth,
  ratio, count_if, present,
}

module _ (F : Floats) where
  because_iff :
      (b : Bool) (r : StageReason) (later : List StageReason)
      → (is_empty F (because b r later) ≡ true) ↔ ((b ≡ false) × (is_empty F later ≡ true))
  because_iff true r later = (λ e. cc, λ e. cc)
  because_iff false r later = (λ e. (refl, e), λ e. e.1)

  -- A summary that meets every threshold.
  record Meets (interval : F.Real) (t : BenchmarkThresholds F.Real) (s : Summary F.Real)
      : Type 0 where
    pub enough_successes : F.less s.success_rate t.min_success_rate ≡ false
    pub p95 : F.Real
    pub has_latency : s.poll_latency_p95_ms ≡ some p95
    pub headroom :
        F.less (F.multiply (F.multiply interval (F.of_ℕ 1000)) t.max_p95_interval_ratio) p95 ≡ false
    pub deadlines_met : F.less t.max_deadline_miss_rate s.deadline_miss_rate ≡ false
    pub requests_answered : F.less t.max_request_failure_rate s.request_failure_rate ≡ false
    pub bus_free :
        (busiest : F.Real)
        → s.bus_utilization_max_percent ≡ some busiest
        → F.less t.max_bus_utilization_percent busiest ≡ false

  exceeds-true_iff :
      (o : Option F.Real) (limit : F.Real)
      → (exceeds F true o limit ≡ false) ↔ ((x : F.Real) × (o ≡ some x) × (F.less limit x ≡ false))
  exceeds-true_iff none limit = (λ e. cc, λ (x, e, h). cc)
  exceeds-true_iff (some y) limit = (λ e. (y, refl, e), λ (x, e, h). cc)

  exceeds-false_iff :
      (o : Option F.Real) (limit : F.Real)
      → (exceeds F false o limit ≡ false) ↔ ((x : F.Real) → o ≡ some x → F.less limit x ≡ false)
  exceeds-false_iff none limit = (λ e x h. cc, λ h. refl)
  exceeds-false_iff (some y) limit = (λ e x h. cc, λ h. h y refl)

  stage_reasons_iff :
      (interval : F.Real) (t : BenchmarkThresholds F.Real) (s : Summary F.Real)
      → (is_empty F (stage_reasons F interval t s) ≡ true) ↔ Meets interval t s
  unfolding stage_reasons
  stage_reasons_iff interval t s = (
    λ e.
        let (a, e1) = (because_iff _ _ _).0 e in
        let (b, e2) = (because_iff _ _ _).0 e1 in
        let (c, e3) = (because_iff _ _ _).0 e2 in
        let (d, e4) = (because_iff _ _ _).0 e3 in
        let (p95, has, room) = (exceeds-true_iff _ _).0 b in
        record {
          enough_successes = a;
          p95 = p95;
          has_latency = has;
          headroom = room;
          deadlines_met = c;
          requests_answered = d;
          bus_free = (exceeds-false_iff _ _).0 ((because_iff _ _ _).0 e4).0;
        },
    λ h.
        let low = (exceeds-true_iff _ _).1 (h.p95, h.has_latency, h.headroom) in
        let last = (because_iff _ _ _).1 ((exceeds-false_iff _ _).1 h.bus_free, refl) in
        (because_iff _ _ _).1 (
          h.enough_successes,
          (because_iff _ _ _).1 (
            low,
            (because_iff _ _ _).1
                (h.deadlines_met, (because_iff _ _ _).1 (h.requests_answered, last)),
          ),
        ),
  )

  -- The samples that pass a test.
  abbrev pub those :
      (PollPerformanceSample F.Real → Bool)
      → List (PollPerformanceSample F.Real)
      → List (PollPerformanceSample F.Real)
  those p [] = []
  those p (s ∷ ss) = let rest = those p ss in if p s then s ∷ rest else rest

  -- n of m, and nothing of none
  abbrev pub share : ℕ → ℕ → F.Real
  share n zero = F.of_ℕ 0
  share n (suc m) = F.divide (F.of_ℕ n) (F.of_ℕ (suc m))

  -- Samples that meet every threshold: the share of successful polls, the 95th percentile of the
  -- latencies against the interval, the share of missed deadlines, the share of failed requests,
  -- and the busiest bus that was measured.
  pub record IsHealthy (interval : F.Real) (t : BenchmarkThresholds F.Real)
      (ss : List (PollPerformanceSample F.Real)) : Type 0 where
    pub enough_successes :
        F.less
          (share (length (those (λ s. PollPerformanceSample.success s) ss)) (length ss))
          t.min_success_rate
        ≡ false
    pub p95 : F.Real
    pub has_latency :
        percentile F
          (map (λ s. PollPerformanceSample.poll_latency_ms s) ss)
          (F.divide (F.of_ℕ 95) (F.of_ℕ 100))
        ≡ ok (some p95)
    pub headroom :
        F.less (F.multiply (F.multiply interval (F.of_ℕ 1000)) t.max_p95_interval_ratio) p95 ≡ false
    pub deadlines_met :
        F.less t.max_deadline_miss_rate
          (share (length (those (λ s. PollPerformanceSample.deadline_missed s) ss)) (length ss))
        ≡ false
    pub requests_answered :
        F.less t.max_request_failure_rate (
          share
            (sum_of (λ s. PollPerformanceSample.failed_requests s) ss)
            (sum_of (λ s. PollPerformanceSample.request_count s) ss))
        ≡ false
    pub bus_free :
        (busiest : F.Real)
        → max? F (present (map (λ s. PollPerformanceSample.bus_utilization_percent s) ss))
          ≡ some busiest
        → F.less t.max_bus_utilization_percent busiest ≡ false

  ratio_lem : (a b : ℕ) → ratio F a b ≡ share a b
  ratio_lem a zero = refl
  ratio_lem a (suc b) =
      let some_polls : (suc b == 0) ≡ false = ground arith in
      ap (λ x. if x then F.of_ℕ 0 else F.divide (F.of_ℕ a) (F.of_ℕ (suc b))) some_polls

  count_lem :
      (p : PollPerformanceSample F.Real → Bool) (ss : List (PollPerformanceSample F.Real))
      → sum_of (λ s. count_if (p s)) ss ≡ length (those p ss)
  count_lem p [] = refl
  count_lem p (s ∷ ss) = elim (Bool-cases (p s)) [
    | inl e ↦ rw e (omega (arith, count_lem p ss))
    | inr e ↦ rw e (omega (arith, count_lem p ss))
  ]

  rate_lem :
      (p : PollPerformanceSample F.Real → Bool) (ss : List (PollPerformanceSample F.Real))
      → ratio F (sum_of (λ s. count_if (p s)) ss) (length ss)
        ≡ share (length (those p ss)) (length ss)
  rate_lem p ss =
      ratio_lem (sum_of (λ s. count_if (p s)) ss) (length ss)
      ∙ ap (λ n. share n (length ss)) (count_lem p ss)

  -- What the summary of the samples is, as far as the thresholds read it.
  pub record Summarizes (ss : List (PollPerformanceSample F.Real)) (s : Summary F.Real)
      : Type 0 where
    pub successes :
        s.success_rate
        ≡ share (length (those (λ s. PollPerformanceSample.success s) ss)) (length ss)
    pub p95_read :
        percentile F
          (map (λ s. PollPerformanceSample.poll_latency_ms s) ss)
          (F.divide (F.of_ℕ 95) (F.of_ℕ 100))
        ≡ ok s.poll_latency_p95_ms
    pub misses :
        s.deadline_miss_rate
        ≡ share (length (those (λ s. PollPerformanceSample.deadline_missed s) ss)) (length ss)
    pub failures :
        s.request_failure_rate
        ≡ share
            (sum_of (λ s. PollPerformanceSample.failed_requests s) ss)
            (sum_of (λ s. PollPerformanceSample.request_count s) ss)
    pub busiest :
        s.bus_utilization_max_percent
        ≡ max? F (present (map (λ s. PollPerformanceSample.bus_utilization_percent s) ss))

  summarize_performance-Summarizes :
      (ss : List (PollPerformanceSample F.Real)) (s : Summary F.Real)
      → summarize_performance F ss ≡ ok s
      → Summarizes ss s
  unfolding summarize_performance
  summarize_performance-Summarizes ss s h =
      let (p50, e50, h1) = >>=-eq-ok (percentile F (latencies F ss) (hundredth F 50)) _ h in
      let (p95, e95, h2) = >>=-eq-ok (percentile F (latencies F ss) (hundredth F 95)) _ h1 in
      let (p99, e99, h3) = >>=-eq-ok (percentile F (latencies F ss) (hundredth F 99)) _ h2 in
      subst (λ x. Summarizes ss x) (ok-injective _ _ h3)
        record {
          successes = rate_lem (λ s. PollPerformanceSample.success s) ss;
          p95_read = e95;
          misses = rate_lem (λ s. PollPerformanceSample.deadline_missed s) ss;
          failures =
              ratio_lem (sum_of (λ s. PollPerformanceSample.failed_requests s) ss)
                (sum_of (λ s. PollPerformanceSample.request_count s) ss);
          busiest = refl;
        }

  Meets-iff :
      (interval : F.Real) (t : BenchmarkThresholds F.Real)
      (ss : List (PollPerformanceSample F.Real)) (s : Summary F.Real)
      → Summarizes ss s
      → Meets interval t s ↔ IsHealthy interval t ss
  Meets-iff interval t ss s h = (
    λ m. record {
      enough_successes =
          subst (λ r. F.less r t.min_success_rate ≡ false) h.successes m.enough_successes;
      p95 = m.p95;
      has_latency = h.p95_read ∙ ap (λ o. ok o) m.has_latency;
      headroom = m.headroom;
      deadlines_met =
          subst (λ r. F.less t.max_deadline_miss_rate r ≡ false) h.misses m.deadlines_met;
      requests_answered =
          subst (λ r. F.less t.max_request_failure_rate r ≡ false) h.failures m.requests_answered;
      bus_free = λ busiest e. m.bus_free busiest (h.busiest ∙ e);
    },
    λ m. record {
      enough_successes =
          subst (λ r. F.less r t.min_success_rate ≡ false) (sym h.successes) m.enough_successes;
      p95 = m.p95;
      has_latency = ok-injective _ _ (sym h.p95_read ∙ m.has_latency);
      headroom = m.headroom;
      deadlines_met =
          subst (λ r. F.less t.max_deadline_miss_rate r ≡ false) (sym h.misses) m.deadlines_met;
      requests_answered =
          subst (λ r. F.less t.max_request_failure_rate r ≡ false) (sym h.failures)
            m.requests_answered;
      bus_free = λ busiest e. m.bus_free busiest (sym h.busiest ∙ e);
    },
  )

  -- An evaluated stage passed exactly if its samples meet every threshold: the share of polls that
  -- succeeded is not below its minimum, there is a 95th percentile of the latencies and it is not
  -- above the allowed part of the interval, and neither the share of polls that missed the deadline,
  -- nor that of failed requests among all, nor the busiest bus that a sample measured is above its
  -- maximum. Of no polls or requests the share is zero.
  pub stage_passed_iff :
      (interval : F.Real) (ss : List (PollPerformanceSample F.Real))
      (t : BenchmarkThresholds F.Real) (stage : BenchmarkStage F.Real)
      → evaluate_benchmark_stage F interval ss t ≡ ok stage
      → (stage.passed ≡ true) ↔ IsHealthy interval t ss
  unfolding evaluate_benchmark_stage
  stage_passed_iff interval ss t stage h =
      let (s, summarized, built) = >>=-eq-ok (summarize_performance F ss) _ h in
      let same : stage.passed ≡ is_empty F (stage_reasons F interval t s) =
        ap (λ x. BenchmarkStage.passed x) (sym (ok-injective _ _ built)) in
      let read = Meets-iff interval t ss s (summarize_performance-Summarizes ss s summarized) in
      let reasons = stage_reasons_iff interval t s in
      (
        λ passed. read.0 (reasons.0 (sym same ∙ passed)),
        λ healthy. same ∙ reasons.1 (read.1 healthy),
      )
