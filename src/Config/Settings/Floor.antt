-- ===== src/Config/Settings/Floor.antt =====
-- How fast the watcher polls under accepted settings (src/morningstar_modbus/config/settings.py,
-- src/morningstar_modbus/polling/service.py).
use morningstar_modbus_api.Prelude.{
  ℕ, ◌≡◌, refl, sym, ap, ◌∙◌, ◌||◌, inl, inr, Bool, true, false, none, some, List, [], ◌∷◌, any,
  All, Bool-cases,
}
use morningstar_modbus_api.Prelude.Text.{Text}
use morningstar_modbus_api.Prelude.Int.{pos_part}
use morningstar_modbus_api.Prelude.Floats.{Floats, max_from, insert_slower, sorted_set_reverse}
use morningstar_modbus_api.Errors.{Result, ok}
use morningstar_modbus_api.Config.Settings.{AppConfig, PollBenchmarkConfig, validate}
use morningstar_modbus_api.Config.Settings.Accepts.{
  benchmark_thresholds, new_auto_poll, validate-interval_tests, validate-new_controller,
}
use morningstar_modbus_api.Polling.Benchmark.Stages.{HasFractions}
use morningstar_modbus_api.Polling.AutoPoll.{
  AutoPollIntervalController, below_max, current_interval_seconds, new_controller, is_nil,
}
use morningstar_modbus_api.Polling.AutoPoll.Runs.{Call, run, run_safe}
use morningstar_modbus_api.Polling.AutoPoll.Within.{
  IsWithin, current_interval_lem, run-IsWithin, new_controller-IsWithin,
}

none_of {ℓ} :
    {A : Type ℓ} (test : A → Bool) (xs : List A)
    → any test xs ≡ false
    → All (λ x. test x ≡ false) xs
none_of test [] h = tt
none_of test (x ∷ xs) h = elim (Bool-cases (test x)) [
  | inl e ↦ cc
  | inr e ↦ (e, none_of test xs (sym (ap (λ b. b || any test xs) e) ∙ h))
]

module _ (F : Floats) (P : F.Real → Type 0) where
  insert_slower-All :
      (x : F.Real) (ys : List F.Real) → P x → All P ys → All P (insert_slower F x ys)
  insert_slower-All x [] h k = (h, tt)
  insert_slower-All x (y ∷ ys) h k = elim (Bool-cases (F.equal x y)) [
    | inl e ↦ rw e k
    | inr e ↦ elim (Bool-cases (F.less y x)) [
      | inl g ↦ rw e (rw g (h, k))
      | inr g ↦ rw e (rw g (k.0, insert_slower-All x ys h k.1))
    ]
  ]

  sorted_set_reverse-All : (xs : List F.Real) → All P xs → All P (sorted_set_reverse F xs)
  sorted_set_reverse-All [] h = tt
  sorted_set_reverse-All (x ∷ xs) h =
      insert_slower-All x (sorted_set_reverse F xs) h.0 (sorted_set_reverse-All xs h.1)

  max_from-All : (m : F.Real) (xs : List F.Real) → P m → All P xs → P (max_from F m xs)
  max_from-All m [] h k = h
  max_from-All m (x ∷ xs) h k = elim (Bool-cases (F.less m x)) [
    | inl e ↦ rw e (max_from-All x xs k.0 k.1)
    | inr e ↦ rw e (max_from-All m xs h k.1)
  ]

module _ (F : Floats) where
  -- A number, and not a NaN, which is not equal to itself.
  abbrev pub IsNumber : F.Real → Type 0
  IsNumber a = F.equal a a ≡ true

  -- Of numbers, what lies below b lies below what does not.
  abbrev pub IsSeparated : Type 0
  IsSeparated =
      (a b c : F.Real)
      → IsNumber a
      → IsNumber b
      → IsNumber c
      → F.less a b ≡ true
      → F.less c b ≡ false
      → F.less a c ≡ true

  -- No interval of the settings is a NaN.
  pub record HasNumbers (b : PollBenchmarkConfig F.Real) : Type 0 where
    pub intervals : All IsNumber b.intervals_seconds
    pub minimum : IsNumber b.minimum_interval_seconds
    pub fallback : IsNumber b.auto_fallback_interval_seconds

  abbrev NotFaster : F.Real → F.Real → Type 0
  NotFaster minimum interval = F.less interval minimum ≡ false

  fallback-NotFaster :
      (minimum fallback : F.Real) (xs : List F.Real)
      → IsSeparated
      → IsNumber minimum
      → IsNumber fallback
      → All IsNumber xs
      → is_nil xs ≡ false
      → All (NotFaster minimum) xs
      → below_max F fallback xs ≡ false
      → NotFaster minimum fallback
  fallback-NotFaster minimum fallback [] sep m f n some_interval h slow = cc
  fallback-NotFaster minimum fallback (x ∷ xs) sep m f n some_interval h slow =
      elim (Bool-cases (F.less fallback minimum)) [
        | inr e ↦ e
        | inl e ↦
            let high = max_from-All F (NotFaster minimum) x xs h.0 h.1 in
            let number = max_from-All F IsNumber x xs n.0 n.1 in
            let low = sep fallback minimum (max_from F x xs) f m number e high in cc
      ]

module _ (F : Floats) (num_addresses : Text → Result ℕ) where
  -- The intervals of accepted settings keep to their minimum.
  new_controller-NotFaster :
      (c : AppConfig F.Real) (controller : AutoPollIntervalController F)
      → IsSeparated F
      → HasNumbers F c.poll_benchmark
      → validate F num_addresses c ≡ ok none
      → new_controller F c.poll_benchmark.intervals_seconds
          (pos_part c.poll_benchmark.samples_per_interval)
          (benchmark_thresholds F c.poll_benchmark)
          c.poll_benchmark.auto_fallback_interval_seconds
        ≡ ok controller
      → IsWithin F (NotFaster F c.poll_benchmark.minimum_interval_seconds) controller
  new_controller-NotFaster c controller sep numbers h made =
      let b = c.poll_benchmark in
      let (positive_minimum, (some_interval, (above, (samples, (positive, (slow, done)))))) =
        validate-interval_tests F num_addresses c none h in
      let intervals =
        none_of (λ interval. F.less interval b.minimum_interval_seconds) b.intervals_seconds
          above in
      let fallback =
        fallback-NotFaster F b.minimum_interval_seconds b.auto_fallback_interval_seconds
          b.intervals_seconds sep numbers.minimum numbers.fallback numbers.intervals some_interval
          intervals slow in
      new_controller-IsWithin F (NotFaster F b.minimum_interval_seconds) b.intervals_seconds
        (pos_part b.samples_per_interval) (benchmark_thresholds F b)
        b.auto_fallback_interval_seconds controller made fallback
        (sorted_set_reverse-All F (NotFaster F b.minimum_interval_seconds)
          (b.auto_fallback_interval_seconds ∷ b.intervals_seconds) (fallback, intervals))

  -- Under settings that _validate accepts with the interval "auto", and in which no interval is a
  -- NaN, Watcher makes its controller of
  -- the interval without an error. In any history of observations and resets the controller never
  -- raises, and the interval that it tells is never below minimum_interval_seconds. The floats must
  -- place a percentile inside its list, and of numbers that are no NaN, what lies below b must lie
  -- below whatever does not lie below b.
  pub auto_poll_floor :
      (c : AppConfig F.Real) (calls : List (Call F))
      → HasFractions F
      → IsSeparated F
      → HasNumbers F c.poll_benchmark
      → validate F num_addresses c ≡ ok none
      → (controller : AutoPollIntervalController F) × (new_auto_poll F c.poll_benchmark none
          ≡ ok (some controller))
        × ((c' : AutoPollIntervalController F) × (r : F.Real) × (run F controller calls ≡ ok c')
            × (current_interval_seconds F c' ≡ ok r)
            × (F.less r c.poll_benchmark.minimum_interval_seconds ≡ false))
  unfolding new_auto_poll
  auto_poll_floor c calls fractions sep numbers h =
      let b = c.poll_benchmark in
      let (controller, made) = validate-new_controller F num_addresses c none h in
      let within = new_controller-NotFaster c controller sep numbers h made in
      let (c', r, ran, tells) =
        run_safe F b.intervals_seconds (pos_part b.samples_per_interval) (benchmark_thresholds F b)
          b.auto_fallback_interval_seconds controller calls fractions made in
      (
        controller,
        rw made refl,
        (
          c',
          r,
          ran,
          tells.told,
          current_interval_lem F (NotFaster F b.minimum_interval_seconds) c' r
              (run-IsWithin F (NotFaster F b.minimum_interval_seconds) calls controller c' within
                ran)
              tells.told,
        ),
      )
