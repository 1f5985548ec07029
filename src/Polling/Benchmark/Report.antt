-- ===== src/Polling/Benchmark/Report.antt =====
-- The recommendation of a benchmark report (src/morningstar_modbus/polling/service.py).
use morningstar_modbus_api.Prelude.{
  ◌≡◌, refl, ap, true, false, Option, none, some, List, [], ◌∷◌, ◌++◌, All,
}
use morningstar_modbus_api.Prelude.Floats.{Floats}
use morningstar_modbus_api.Polling.Benchmark.{BenchmarkStage, report_loop, build_benchmark_report}

module _ (F : Floats) where
  abbrev interval_of : BenchmarkStage F.Real → F.Real
  interval_of s = s.interval_seconds

  -- The interval of the last stage, or the given one.
  abbrev pub last_interval : Option F.Real → List (BenchmarkStage F.Real) → Option F.Real
  last_interval before [] = before
  last_interval before (s ∷ rest) = last_interval (some s.interval_seconds) rest

  abbrev StartsFailed : List (BenchmarkStage F.Real) → Type 0
  StartsFailed [] = Unit
  StartsFailed (s ∷ rest) = s.passed ≡ false

  abbrev pub first_or : Option F.Real → List (BenchmarkStage F.Real) → Option F.Real
  first_or before [] = before
  first_or before (s ∷ rest) = some s.interval_seconds

  report_loop_lem :
      (passing rest : List (BenchmarkStage F.Real)) (before : Option F.Real)
      → All (λ s. BenchmarkStage.passed s ≡ true) passing
      → StartsFailed rest
      → report_loop F (passing ++ rest) before before
        ≡ (last_interval before passing, first_or (last_interval before passing) rest)
  unfolding report_loop
  report_loop_lem [] [] before h k = refl
  report_loop_lem [] (s ∷ rest) before h k = rw k refl
  report_loop_lem (s ∷ passing) rest before h k =
      rw h.0 (report_loop_lem passing rest (some s.interval_seconds) h.1 k)

  -- A report recommends the interval of the last stage before the first failed one, or none if
  -- the first stage failed, and the fastest tested interval is that of the first failed stage,
  -- or the recommended one if every stage passed. Stages after the first failure count for
  -- nothing.
  pub build_benchmark_report_lem :
      (passing rest : List (BenchmarkStage F.Real))
      → All (λ s. BenchmarkStage.passed s ≡ true) passing
      → StartsFailed rest
      → let report = build_benchmark_report F (passing ++ rest) in
        let best = last_interval none passing in
        (report.recommended_interval_seconds ≡ best)
        × (report.fastest_tested_interval_seconds ≡ first_or best rest)
        × (report.stages ≡ passing ++ rest)
  unfolding build_benchmark_report
  build_benchmark_report_lem passing rest h k =
      let e = report_loop_lem passing rest none h k in (ap (λ r. r.0) e, ap (λ r. r.1) e, refl)
