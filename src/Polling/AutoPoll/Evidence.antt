-- ===== src/Polling/AutoPoll/Evidence.antt =====
-- The samples that AutoPollIntervalController keeps, and the evidence that a stage without
-- failures is (src/morningstar_modbus/polling/service.py).
use morningstar_modbus_api.Prelude.{
  ℕ, ◌-◌, ◌≤◌, ◌<◌, ◌≡◌, ◌≢◌, refl, sym, ap, subst, ◌∙◌, inl, inr, Bool, true, false, Option, none,
  some, List, [], ◌∷◌, ◌++◌, ◌||◌, ltb, arith, length, any, All, All-append, All-drop, length-drop,
  Bool-cases, Option-cases, if◌then◌else◌,
}
use morningstar_modbus_api.Prelude.Text.{Text, text_eq, text_eq_sound}
use morningstar_modbus_api.Prelude.Maps.{lookup, put, lookup-put_same, lookup-put_other}
use morningstar_modbus_api.Prelude.Floats.{Floats}
use morningstar_modbus_api.Errors.{ok}
use morningstar_modbus_api.Polling.Benchmark.{
  BenchmarkThresholds, BenchmarkStage, StageReason, evaluate_benchmark_stage,
}
use morningstar_modbus_api.Polling.Benchmark.Stages.{HasFractions, evaluate_total}
use morningstar_modbus_api.Polling.AutoPoll.{
  Sample, Samples, or_empty, kept, append_sample, record_samples, last_samples, stored,
  present_or_error, note_stage, stage_failures,
}

any_false : {a b : Bool} → (a || b) ≡ false → (a ≡ false) × (b ≡ false)
any_false {a} {b} h = ground arith

pub some-injective {ℓ} : {A : Type ℓ} (a b : A) → some a ≡ some b → a ≡ b
some-injective a b h = cc

module _ (F : Floats) (Seen : Text → Sample F → Type 0) where
  -- Every sample kept for a controller was observed of it.
  abbrev pub IsSeen : Samples F → Type 0
  IsSeen store = (id : Text) (ss : List (Sample F)) → lookup id store ≡ some ss → All (Seen id) ss

  abbrev pub IsSeenDict : List (Text × Sample F) → Type 0
  IsSeenDict samples = (id : Text) (s : Sample F) → lookup id samples ≡ some s → Seen id s

  kept-IsSeen : (store : Samples F) (id : Text) → IsSeen store → All (Seen id) (kept F id store)
  kept-IsSeen store id h = elim (Option-cases (lookup id store)) [
    | inl e ↦ subst (λ o. All (Seen id) (or_empty F o)) (sym e) tt
    | inr (ss, e) ↦ subst (λ o. All (Seen id) (or_empty F o)) (sym e) (h id ss e)
  ]

  put-IsSeen :
      (store : Samples F) (id : Text) (ss : List (Sample F))
      → IsSeen store
      → All (Seen id) ss
      → IsSeen (put id ss store)
  put-IsSeen store id ss h k other found e = elim (Bool-cases (text_eq other id)) [
    | inl s ↦
        let same = text_eq_sound other id s in
        let here : some ss ≡ some found =
          sym (lookup-put_same id ss store)
          ∙ subst (λ t. lookup t (put id ss store) ≡ some found) same e in
        subst (λ t. All (Seen t) found) (sym same)
          (subst (λ t. All (Seen id) t) (some-injective ss found here) k)
    | inr s ↦ h other found (sym (lookup-put_other other id ss store s) ∙ e)
  ]

  append_sample-IsSeen :
      (id : Text) (o : Option (Sample F)) (store : Samples F)
      → IsSeen store
      → ((s : Sample F) → o ≡ some s → Seen id s)
      → IsSeen (append_sample F id o store)
  append_sample-IsSeen id none store h k = h
  append_sample-IsSeen id (some s) store h k =
      put-IsSeen store id (kept F id store ++ s ∷ []) h
        (All-append (Seen id) (kept F id store) (s ∷ []) (kept-IsSeen store id h) (k s refl, tt))

  pub record_samples-IsSeen :
      (samples : List (Text × Sample F)) (ids : List Text) (store : Samples F)
      → IsSeen store
      → IsSeenDict samples
      → IsSeen (record_samples F samples ids store)
  unfolding record_samples
  record_samples-IsSeen samples [] store h k = h
  record_samples-IsSeen samples (id ∷ ids) store h k =
      record_samples-IsSeen samples ids (append_sample F id (lookup id samples) store)
        (append_sample-IsSeen id (lookup id samples) store h (k id)) k

  -- `n` samples observed of the controller on which the interval passed.
  pub record Passed (interval : F.Real) (n : ℕ) (t : BenchmarkThresholds F.Real) (id : Text)
      : Type 0 where
    pub evidence : List (Sample F)
    pub enough : length evidence ≡ n
    pub observed : All (Seen id) evidence
    pub stage : BenchmarkStage F.Real
    pub evaluated : evaluate_benchmark_stage F interval evidence t ≡ ok stage
    pub passed : stage.passed ≡ true

  -- An interval at which every controller of a poll passed.
  pub record IsProven (Polled : List Text → Type 0) (n : ℕ) (t : BenchmarkThresholds F.Real)
      (interval : F.Real) : Type 0 where
    pub ids : List Text
    pub polled : Polled ids
    pub some_controller : ids ≢ []
    pub each : All (Passed interval n t) ids

  abbrev pub waiting : ℕ → Samples F → Text → Bool
  waiting n store id = ltb (length (kept F id store)) n

  enough_stored :
      (n : ℕ) (store : Samples F) (id : Text)
      → 0 < n
      → waiting n store id ≡ false
      → (ss : List (Sample F)) × (lookup id store ≡ some ss) × (n ≤ length ss)
  enough_stored n store id p w = elim (Option-cases (lookup id store)) [
    | inl e ↦
        let short : ltb 0 n ≡ false = sym (ap (λ o. ltb (length (or_empty F o)) n) e) ∙ w in
        absurd (ground arith)
    | inr (ss, e) ↦
        let long : ltb (length ss) n ≡ false =
          sym (ap (λ o. ltb (length (or_empty F o)) n) e) ∙ w in
        (ss, e, ground arith)
  ]

  last_samples-Passed :
      (interval : F.Real) (n : ℕ) (t : BenchmarkThresholds F.Real) (id : Text)
      (ss : List (Sample F)) (stage : BenchmarkStage F.Real)
      → n ≤ length ss
      → All (Seen id) ss
      → evaluate_benchmark_stage F interval (last_samples F n ss) t ≡ ok stage
      → stage.passed ≡ true
      → Passed interval n t id
  last_samples-Passed interval n t id ss stage p h e passed = record {
    evidence = last_samples F n ss;
    enough = omega (arith, length-drop (length ss - n) ss);
    observed = All-drop (Seen id) (length ss - n) ss h;
    stage = stage;
    evaluated = e;
    passed = passed;
  }

  note_stage_nil :
      (id : Text) (stage : BenchmarkStage F.Real) (rest : List (Text × List StageReason))
      → note_stage F id stage rest ≡ []
      → (stage.passed ≡ true) × (rest ≡ [])
  note_stage_nil id stage rest h = elim (Bool-cases stage.passed) [
    | inl e ↦ (e, sym (ap (λ b. if b then rest else (id, stage.reasons) ∷ rest) e) ∙ h)
    | inr e ↦
        let added : (id, stage.reasons) ∷ rest ≡ [] =
          sym (ap (λ b. if b then rest else (id, stage.reasons) ∷ rest) e) ∙ h in
        cc
  ]

  -- With enough samples kept of every controller the loop returns, and no failures are evidence.
  pub stage_failures_lem :
      (interval : F.Real) (n : ℕ) (t : BenchmarkThresholds F.Real) (store : Samples F)
      (ids : List Text)
      → HasFractions F
      → 0 < n
      → IsSeen store
      → any (waiting n store) ids ≡ false
      → (failures : List (Text × List StageReason)) × (stage_failures F interval n t store ids
          ≡ ok failures)
        × (failures ≡ [] → All (Passed interval n t) ids)
  unfolding stage_failures
  stage_failures_lem interval n t store [] h p seen w = ([], refl, λ e. tt)
  stage_failures_lem interval n t store (id ∷ ids) h p seen w =
      let (here, later) = any_false w in
      let (ss, found, long) = enough_stored n store id p here in
      let (stage, evaluated) = evaluate_total F interval (last_samples F n ss) t h in
      let (rest, e, proven) = stage_failures_lem interval n t store ids h p seen later in
      let same : stored F id store ≡ ok ss = ap (λ o. present_or_error F o) found in
      (
        note_stage F id stage rest,
        rw same (rw evaluated (rw e refl)),
        λ none_failed.
            let (passed, nil) = note_stage_nil id stage rest none_failed in
            (
              last_samples-Passed interval n t id ss stage long (seen id ss found) evaluated passed,
              proven nil,
            ),
      )
