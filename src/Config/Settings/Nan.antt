-- ===== src/Config/Settings/Nan.antt =====
-- A NaN among the intervals (src/morningstar_modbus/config/settings.py).
use morningstar_modbus_api.Prelude.{◌≡◌, refl, ap, false, Bool, Option, List, [], ◌∷◌, All, ◌||◌}
use morningstar_modbus_api.Prelude.Text.{Text}
use morningstar_modbus_api.Prelude.Floats.{Floats}
use morningstar_modbus_api.Prelude.{ℕ}
use morningstar_modbus_api.Errors.{Result, ok}
use morningstar_modbus_api.Config.Settings.{
  AppConfig, is_not_positive, refuse_first, interval_tests, validate,
}
use morningstar_modbus_api.Config.Settings.Accepts.{
  validate-Accepted, validate-interval_tests, Accepted-validate,
}

refuse_first-none :
    (tests : List (Bool × Text)) → All (λ t. t.0 ≡ false) tests → refuse_first tests ≡ ok tt
refuse_first-none [] h = refl
refuse_first-none ((test, name) ∷ tests) h = rw h.0 (refuse_first-none tests h.1)

module _ (F : Floats) where
  -- Nothing is below a NaN, and a NaN below nothing.
  pub record IsNan (nan : F.Real) : Type 0 where
    pub below : (x : F.Real) → F.less nan x ≡ false
    pub above : (x : F.Real) → F.less x nan ≡ false

  -- The settings with a NaN for the only interval of the benchmark, and this fallback.
  abbrev pub with_nan : F.Real → F.Real → AppConfig F.Real → AppConfig F.Real
  with_nan nan fallback c = record c {
    poll_benchmark = record c.poll_benchmark {
      intervals_seconds = nan ∷ [];
      auto_fallback_interval_seconds = fallback;
    };
  }

  module _ (num_addresses : Text → Result ℕ) where
    -- Settings that are accepted are also accepted with a NaN for the only interval of the benchmark
    -- and any positive fallback, also one below minimum_interval_seconds.
    pub validate-with_nan :
        (c : AppConfig F.Real) (interval : Option F.Real) (nan fallback : F.Real)
        → IsNan nan
        → is_not_positive F fallback ≡ false
        → validate F num_addresses c ≡ ok interval
        → validate F num_addresses (with_nan nan fallback c) ≡ ok interval
    validate-with_nan c interval nan fallback n positive h =
        let (minimum, (some_interval, (above, (samples, rest)))) =
          validate-interval_tests F num_addresses c interval h in
        let a = validate-Accepted F num_addresses c interval h in
        let c' = with_nan nan fallback c in
        let not_below : (F.less nan c.poll_benchmark.minimum_interval_seconds || false) ≡ false =
          ap (λ t. t || false) (n.below c.poll_benchmark.minimum_interval_seconds) in
        Accepted-validate F num_addresses c' interval record {
          normalized = a.normalized;
          general = a.general;
          intervals =
              refuse_first-none (interval_tests F c'.poll_benchmark)
                (minimum, (refl, (not_below, (samples, (positive, (n.above fallback, tt))))));
          rates = a.rates;
          subnets = a.subnets;
        }
