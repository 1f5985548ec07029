-- ===== src/Polling/AutoPoll/Within.antt =====
-- A property that all intervals and the fallback of an AutoPollIntervalController have
-- (src/morningstar_modbus/polling/service.py), kept by its calls.
use morningstar_modbus_api.Prelude.{
  ℕ, zero, suc, ◌+◌, ◌≡◌, refl, sym, ap, subst, inl, inr, Bool, true, false, not, ◌||◌, Option,
  none, some, List, [], ◌∷◌, ltb, length, get_elem?, any, All, Bool-cases, if◌then◌else◌,
}
use morningstar_modbus_api.Prelude.Text.{Text}
use morningstar_modbus_api.Prelude.Floats.{Floats, sorted_set_reverse}
use morningstar_modbus_api.Errors.{
  Result, ok, ok-injective, raise_if_passed, value_error, no_intervals, few_samples, fallback_range,
  >>=-eq-ok, ◌>>=◌,
}
use morningstar_modbus_api.Polling.Benchmark.{BenchmarkThresholds, StageReason, element}
use morningstar_modbus_api.Polling.AutoPoll.{
  AutoPollIntervalController, Message, Sample, record_samples, stage_failures, kept, locked_or,
  current_interval_seconds, calibrating, is_nil, conclude, observe, safe_or, advance, reset,
  new_controller, below_max,
}
use morningstar_modbus_api.Polling.AutoPoll.Evidence.{some-injective}
use morningstar_modbus_api.Polling.AutoPoll.Runs.{Call, observes, resets, step, run}

element-All {ℓ} :
    {A : Type ℓ} (P : A → Type 0) (xs : List A) (i : ℕ) (x : A)
    → All P xs
    → element (get_elem? xs i) ≡ ok x
    → P x
element-All P [] i x h e = cc
element-All P (y ∷ xs) zero x h e = subst P (ok-injective _ _ e) h.0
element-All P (y ∷ xs) (suc i) x h e = element-All P xs i x h.1 e

get_elem?-All {ℓ} :
    {A : Type ℓ} (P : A → Type 0) (xs : List A) (i : ℕ) (x : A)
    → All P xs
    → get_elem? xs i ≡ some x
    → P x
get_elem?-All P xs i x h e = element-All P xs i x h (ap (λ o. element o) e)

either_ok {ℓ} :
    {X : Type ℓ} {Q : Type 0} (b : Bool) (x y : Result X) (r : X)
    → (x ≡ ok r → Q)
    → (y ≡ ok r → Q)
    → (if b then x else y) ≡ ok r
    → Q
either_ok true x y r f g e = f e
either_ok false x y r f g e = g e

module _ (F : Floats) (P : F.Real → Type 0) where
  pub record IsWithin (c : AutoPollIntervalController F) : Type 0 where
    pub stages : All P c.intervals_seconds
    pub fallback : P c.fallback_interval_seconds
    pub safe : (r : F.Real) → c.last_safe_interval ≡ some r → P r
    pub locked : (r : F.Real) → c.locked_interval ≡ some r → P r

  abbrev Outcome : Type 0
  Outcome = AutoPollIntervalController F × Option (Message F)

  abbrev recorded :
      List (Text × Sample F)
      → List Text
      → AutoPollIntervalController F
      → AutoPollIntervalController F
  recorded samples ids c = record c { samples = record_samples F samples ids c.samples }

  recorded-IsWithin :
      (samples : List (Text × Sample F)) (ids : List Text) (c : AutoPollIntervalController F)
      → IsWithin c
      → IsWithin (recorded samples ids c)
  recorded-IsWithin samples ids c s = record {
    stages = s.stages;
    fallback = s.fallback;
    safe = s.safe;
    locked = s.locked;
  }

  safe_or_lem :
      (o : Option F.Real) (fallback : F.Real)
      → P fallback
      → ((r : F.Real) → o ≡ some r → P r)
      → P (safe_or F o fallback)
  safe_or_lem none fallback h safe = h
  safe_or_lem (some x) fallback h safe = elim (Bool-cases (F.equal x (F.of_ℕ 0))) [
    | inl e ↦ subst P (sym (ap (λ b. if b then fallback else x) e)) h
    | inr e ↦ subst P (sym (ap (λ b. if b then fallback else x) e)) (safe x refl)
  ]

  conclude-IsWithin :
      (interval : F.Real) (failures : List (Text × List StageReason))
      (c : AutoPollIntervalController F)
      → IsWithin c
      → P interval
      → IsWithin (conclude F interval failures c).0
  unfolding conclude
  conclude-IsWithin interval (f ∷ fs) c s h = record {
    stages = s.stages;
    fallback = s.fallback;
    safe = s.safe;
    locked = λ r e.
        subst P (some-injective _ _ e)
          (safe_or_lem c.last_safe_interval c.fallback_interval_seconds s.fallback s.safe);
  }
  conclude-IsWithin interval [] c s h = advanced (get_elem? c.intervals_seconds (c.stage_index + 1))
    where
      advanced :
          (next : Option F.Real)
          → IsWithin
              (advance F interval next
                (record c { samples = []; last_safe_interval = some interval })).0
      advanced none = record {
        stages = s.stages;
        fallback = s.fallback;
        safe = λ r e. subst P (some-injective _ _ e) h;
        locked = λ r e. subst P (some-injective _ _ e) h;
      }
      advanced (some x) = record {
        stages = s.stages;
        fallback = s.fallback;
        safe = λ r e. subst P (some-injective _ _ e) h;
        locked = s.locked;
      }

  pub current_interval_lem :
      (c : AutoPollIntervalController F) (r : F.Real)
      → IsWithin c
      → current_interval_seconds F c ≡ ok r
      → P r
  unfolding current_interval_seconds
  current_interval_lem c r s e = from c.locked_interval s.locked e
    where
      from :
          (o : Option F.Real)
          → ((r : F.Real) → o ≡ some r → P r)
          → locked_or F o (element (get_elem? c.intervals_seconds c.stage_index)) ≡ ok r
          → P r
      from none h q = element-All P c.intervals_seconds c.stage_index r s.stages q
      from (some x) h q = subst P (ok-injective _ _ q) (h x refl)

  abbrev judged : List Text → AutoPollIntervalController F → Result Outcome
  judged ids c = do
    interval ← current_interval_seconds F c
    failures ← stage_failures F interval c.samples_per_interval c.thresholds c.samples ids
    ok (conclude F interval failures c)

  judged-IsWithin :
      (ids : List Text) (c : AutoPollIntervalController F) (r : Outcome)
      → IsWithin c
      → judged ids c ≡ ok r
      → IsWithin r.0
  judged-IsWithin ids c r s e =
      let failures_of : F.Real → Result (List (Text × List StageReason)) =
        λ interval. stage_failures F interval c.samples_per_interval c.thresholds c.samples ids in
      let (interval, now, rest) =
        >>=-eq-ok (current_interval_seconds F c)
          (λ interval. failures_of interval >>= λ failures. ok (conclude F interval failures c))
          e in
      let (failures, found, last) =
        >>=-eq-ok (failures_of interval) (λ failures. ok (conclude F interval failures c)) rest in
      subst (λ x. IsWithin x.0) (ok-injective _ _ last)
        (conclude-IsWithin interval failures c s (current_interval_lem c interval s now))

  observe-IsWithin :
      (samples : List (Text × Sample F)) (ids : List Text) (c : AutoPollIntervalController F)
      (r : Outcome)
      → IsWithin c
      → observe F samples ids c ≡ ok r
      → IsWithin r.0
  unfolding observe
  observe-IsWithin samples ids c r s e =
      let c' = recorded samples ids c in
      let kept_all = recorded-IsWithin samples ids c s in
      let waits = any (λ id. ltb (length (kept F id c'.samples)) c.samples_per_interval) ids in
      either_ok (not (calibrating F c) || is_nil ids) (ok (c, none))
        (if waits then ok (c', none) else judged ids c') r
        (λ q. subst (λ x. IsWithin x.0) (ok-injective _ _ q) s)
        (either_ok waits (ok (c', none)) (judged ids c') r
          (λ q. subst (λ x. IsWithin x.0) (ok-injective _ _ q) kept_all)
          (judged-IsWithin ids c' r kept_all))
        e

  step-IsWithin :
      (call : Call F) (c c' : AutoPollIntervalController F)
      → IsWithin c
      → step F call c ≡ ok c'
      → IsWithin c'
  unfolding step reset
  step-IsWithin (observes samples ids) c c' s e =
      let (r, seen, last) = >>=-eq-ok (observe F samples ids c) (λ r. ok r.0) e in
      subst (λ x. IsWithin x) (ok-injective _ _ last) (observe-IsWithin samples ids c r s seen)
  step-IsWithin resets c c' s e =
      subst (λ x. IsWithin x) (ok-injective _ _ e)
        record { stages = s.stages; fallback = s.fallback; safe = λ r q. cc; locked = λ r q. cc }

  pub run-IsWithin :
      (calls : List (Call F)) (c c' : AutoPollIntervalController F)
      → IsWithin c
      → run F c calls ≡ ok c'
      → IsWithin c'
  unfolding run
  run-IsWithin [] c c' s e = subst (λ x. IsWithin x) (ok-injective _ _ e) s
  run-IsWithin (call ∷ earlier) c c' s e =
      let (before, q, last) = >>=-eq-ok (run F c earlier) (λ before. step F call before) e in
      step-IsWithin call before c' (run-IsWithin earlier c before s q) last

  abbrev fresh :
      List F.Real → ℕ → BenchmarkThresholds F.Real → F.Real → AutoPollIntervalController F
  fresh intervals n t fallback = record {
    intervals_seconds = sorted_set_reverse F (fallback ∷ intervals);
    samples_per_interval = n;
    thresholds = t;
    fallback_interval_seconds = fallback;
    stage_index = 0;
    last_safe_interval = none;
    locked_interval = none;
    samples = [];
  }

  fresh-IsWithin :
      (intervals : List F.Real) (n : ℕ) (t : BenchmarkThresholds F.Real) (fallback : F.Real)
      → P fallback
      → All P (sorted_set_reverse F (fallback ∷ intervals))
      → IsWithin (fresh intervals n t fallback)
  fresh-IsWithin intervals n t fallback h stages = record {
    stages = stages;
    fallback = h;
    safe = λ r q. cc;
    locked = λ r q. cc;
  }

  pub new_controller-IsWithin :
      (intervals : List F.Real) (n : ℕ) (t : BenchmarkThresholds F.Real) (fallback : F.Real)
      (c : AutoPollIntervalController F)
      → new_controller F intervals n t fallback ≡ ok c
      → P fallback
      → All P (sorted_set_reverse F (fallback ∷ intervals))
      → IsWithin c
  unfolding new_controller
  new_controller-IsWithin intervals n t fallback c e h stages =
      let (nonempty, e1) = raise_if_passed (is_nil intervals) (value_error no_intervals) _ e in
      let (enough, e2) = raise_if_passed (ltb n 3) (value_error few_samples) _ e1 in
      let (slow, e3) =
        raise_if_passed (below_max F fallback intervals) (value_error fallback_range) _ e2 in
      subst (λ x. IsWithin x) (ok-injective _ _ e3) (fresh-IsWithin intervals n t fallback h stages)
