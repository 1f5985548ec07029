-- ===== src/Polling/AutoPoll/Safety.antt =====
-- What AutoPollIntervalController promises of the interval that it has the watcher poll at
-- (src/morningstar_modbus/polling/service.py).
use morningstar_modbus_api.Prelude.{
  ℕ, zero, suc, ◌+◌, ◌<◌, ◌≡◌, ◌≢◌, ◌⊎◌, refl, sym, ap, subst, ◌∙◌, inl, inr, Bool, false, not,
  ◌||◌, Option, none, some, List, [], ◌∷◌, arith, length, get_elem?, any, Bool-cases, Option-cases,
  if◌then◌else◌,
}
use morningstar_modbus_api.Prelude.Text.{Text}
use morningstar_modbus_api.Prelude.Floats.{Floats}
use morningstar_modbus_api.Errors.{Result, ok, ◌>>=◌}
use morningstar_modbus_api.Polling.Benchmark.{StageReason}
use morningstar_modbus_api.Polling.Benchmark.Stages.{HasFractions, get_elem?_in_range}
use morningstar_modbus_api.Polling.AutoPoll.{
  AutoPollIntervalController, Message, Sample, record_samples, stage_failures,
  current_interval_seconds, calibrating, is_nil, is_none, conclude, observe, safe_or, advance,
}
use morningstar_modbus_api.Polling.AutoPoll.Evidence.{
  IsSeen, IsSeenDict, some-injective, IsProven, waiting, record_samples-IsSeen, stage_failures_lem,
}

get_elem?_bound {ℓ} :
    {A : Type ℓ} (xs : List A) (i : ℕ) (x : A) → get_elem? xs i ≡ some x → i < length xs
get_elem?_bound [] i x e = cc
get_elem?_bound (y ∷ xs) zero x e = omega arith
get_elem?_bound (y ∷ xs) (suc i) x e = omega (arith, get_elem?_bound xs i x e)

List-cases {ℓ} : {A : Type ℓ} (xs : List A) → (xs ≡ []) ⊎ ((xs ≢ []) × (is_nil xs ≡ false))
List-cases [] = inl refl
List-cases (x ∷ xs) = inr (λ e. cc, refl)

module _ (F : Floats) (Seen : Text → Sample F → Type 0) (Polled : List Text → Type 0)
    (start : AutoPollIntervalController F) where
  -- The settings of the controller are those that it started with.
  abbrev pub Keeps : AutoPollIntervalController F → Type 0
  Keeps c =
      (c.intervals_seconds ≡ start.intervals_seconds)
      × (c.samples_per_interval ≡ start.samples_per_interval)
      × (c.thresholds ≡ start.thresholds)
      × (c.fallback_interval_seconds ≡ start.fallback_interval_seconds)

  abbrev Proven : AutoPollIntervalController F → F.Real → Type 0
  Proven c r = IsProven F Seen Polled c.samples_per_interval c.thresholds r

  -- The stage is one of the intervals, a calibration that is over chose a proven interval or the
  -- fallback, and what counts as safe is proven.
  pub record IsSound (c : AutoPollIntervalController F) : Type 0 where
    pub keeps : Keeps c
    pub some_samples : 0 < c.samples_per_interval
    pub in_range : c.stage_index < length c.intervals_seconds
    pub seen : IsSeen F Seen c.samples
    pub safe : (r : F.Real) → c.last_safe_interval ≡ some r → Proven c r
    pub locked :
        (r : F.Real) → c.locked_interval ≡ some r → (r ≡ c.fallback_interval_seconds) ⊎ Proven c r

  safe_or_cases :
      (o : Option F.Real) (fallback : F.Real)
      → (safe_or F o fallback ≡ fallback) ⊎ (o ≡ some (safe_or F o fallback))
  safe_or_cases none fallback = inl refl
  safe_or_cases (some x) fallback = elim (Bool-cases (F.equal x (F.of_ℕ 0))) [
    | inl e ↦ inl (ap (λ b. if b then fallback else x) e)
    | inr e ↦ inr (sym (ap (λ b. some (if b then fallback else x)) e))
  ]

  abbrev settled : F.Real → AutoPollIntervalController F → AutoPollIntervalController F
  settled interval c = record c { samples = []; last_safe_interval = some interval }

  advance-IsSound :
      (c : AutoPollIntervalController F) (interval : F.Real) (next : Option F.Real)
      → IsSound c
      → c.locked_interval ≡ none
      → Proven c interval
      → get_elem? c.intervals_seconds (c.stage_index + 1) ≡ next
      → IsSound (advance F interval next (settled interval c)).0
  advance-IsSound c interval none s unlocked h e = record {
    keeps = s.keeps;
    some_samples = s.some_samples;
    in_range = s.in_range;
    seen = λ id ss found. cc;
    safe = λ r q. subst (λ x. Proven c x) (some-injective _ _ q) h;
    locked = λ r q. inr (subst (λ x. Proven c x) (some-injective _ _ q) h);
  }
  advance-IsSound c interval (some next) s unlocked h e = record {
    keeps = s.keeps;
    some_samples = s.some_samples;
    in_range = get_elem?_bound c.intervals_seconds (c.stage_index + 1) next e;
    seen = λ id ss found. cc;
    safe = λ r q. subst (λ x. Proven c x) (some-injective _ _ q) h;
    locked = s.locked;
  }

  conclude-IsSound :
      (c : AutoPollIntervalController F) (interval : F.Real)
      (failures : List (Text × List StageReason))
      → IsSound c
      → c.locked_interval ≡ none
      → (failures ≡ [] → Proven c interval)
      → IsSound (conclude F interval failures c).0
  unfolding conclude
  conclude-IsSound c interval [] s unlocked h =
      advance-IsSound c interval (get_elem? c.intervals_seconds (c.stage_index + 1)) s unlocked
        (h refl) refl
  conclude-IsSound c interval (f ∷ fs) s unlocked h = record {
    keeps = s.keeps;
    some_samples = s.some_samples;
    in_range = s.in_range;
    seen = λ id ss found. cc;
    safe = s.safe;
    locked = λ r e.
        let chosen = some-injective _ _ e in
        elim (safe_or_cases c.last_safe_interval c.fallback_interval_seconds) [
          | inl q ↦ inl (sym chosen ∙ q)
          | inr q ↦ inr (s.safe r (q ∙ ap (λ x. some x) chosen))
        ];
  }

  abbrev recorded :
      List (Text × Sample F)
      → List Text
      → AutoPollIntervalController F
      → AutoPollIntervalController F
  recorded samples ids c = record c { samples = record_samples F samples ids c.samples }

  recorded-IsSound :
      (samples : List (Text × Sample F)) (ids : List Text) (c : AutoPollIntervalController F)
      → IsSound c
      → IsSeenDict F Seen samples
      → IsSound (recorded samples ids c)
  recorded-IsSound samples ids c s h = record {
    keeps = s.keeps;
    some_samples = s.some_samples;
    in_range = s.in_range;
    seen = record_samples-IsSeen F Seen samples ids c.samples s.seen h;
    safe = s.safe;
    locked = s.locked;
  }

  -- The last part of `observe`.
  abbrev judged :
      List Text
      → AutoPollIntervalController F
      → Result (AutoPollIntervalController F × Option (Message F))
  judged ids c = do
    interval ← current_interval_seconds F c
    failures ← stage_failures F interval c.samples_per_interval c.thresholds c.samples ids
    ok (conclude F interval failures c)

  judged-IsSound :
      (ids : List Text) (c : AutoPollIntervalController F)
      → HasFractions F
      → IsSound c
      → Polled ids
      → ids ≢ []
      → c.locked_interval ≡ none
      → any (waiting F Seen c.samples_per_interval c.samples) ids ≡ false
      → (r : AutoPollIntervalController F × Option (Message F)) × (judged ids c ≡ ok r)
        × IsSound r.0
  unfolding current_interval_seconds
  judged-IsSound ids c h s polled nonempty unlocked w =
      let (interval, at) = get_elem?_in_range c.intervals_seconds c.stage_index s.in_range in
      let (failures, e, proven) =
        stage_failures_lem F Seen interval c.samples_per_interval c.thresholds c.samples ids h
          s.some_samples s.seen w in
      let evidence : failures ≡ [] → Proven c interval =
        λ q. record { ids = ids; polled = polled; some_controller = nonempty; each = proven q } in
      (
        conclude F interval failures c,
        rw unlocked (rw at (rw e refl)),
        conclude-IsSound c interval failures s unlocked evidence,
      )

  -- `observe` with the three tests that it makes.
  abbrev branch :
      List (Text × Sample F)
      → List Text
      → AutoPollIntervalController F
      → Bool
      → Bool
      → Bool
      → Result (AutoPollIntervalController F × Option (Message F))
  branch samples ids c unlocked nobody waits =
      if not unlocked || nobody
      then ok (c, none)
      else if waits
      then ok (recorded samples ids c, none)
      else judged ids (recorded samples ids c)

  abbrev waits_for : List (Text × Sample F) → List Text → AutoPollIntervalController F → Bool
  waits_for samples ids c =
      any (waiting F Seen c.samples_per_interval (recorded samples ids c).samples) ids

  observe_lem :
      (samples : List (Text × Sample F)) (ids : List Text) (c : AutoPollIntervalController F)
      → observe F samples ids c
        ≡ branch samples ids c (is_none F c.locked_interval) (is_nil ids) (waits_for samples ids c)
  unfolding observe calibrating
  observe_lem samples ids c = refl

  branch_lem :
      (samples : List (Text × Sample F)) (ids : List Text) (c : AutoPollIntervalController F)
      {a b w : Bool}
      → is_none F c.locked_interval ≡ a
      → is_nil ids ≡ b
      → waits_for samples ids c ≡ w
      → observe F samples ids c ≡ branch samples ids c a b w
  branch_lem samples ids c {a} {b} ea eb ew =
      observe_lem samples ids c
      ∙ ap (λ t. branch samples ids c t (is_nil ids) (waits_for samples ids c)) ea
      ∙ ap (λ t. branch samples ids c a t (waits_for samples ids c)) eb
      ∙ ap (λ t. branch samples ids c a b t) ew

  -- Of a sound state and observed samples, `observe` returns, and leaves a sound state.
  pub observe-IsSound :
      (samples : List (Text × Sample F)) (ids : List Text) (c : AutoPollIntervalController F)
      → HasFractions F
      → IsSeenDict F Seen samples
      → Polled ids
      → IsSound c
      → (r : AutoPollIntervalController F × Option (Message F)) × (observe F samples ids c ≡ ok r)
        × IsSound r.0
  observe-IsSound samples ids c h k polled s =
      let c' = recorded samples ids c in
      let s' = recorded-IsSound samples ids c s k in
      elim (Option-cases c.locked_interval) [
        | inr (r, e) ↦ ((c, none), branch_lem samples ids c (ap (λ o. is_none F o) e) refl refl, s)
        | inl e ↦
            let unlocked = ap (λ o. is_none F o) e in
            elim (List-cases ids) [
              | inl q ↦ ((c, none), branch_lem samples ids c unlocked (ap is_nil q) refl, s)
              | inr (nonempty, q) ↦ elim (Bool-cases (waits_for samples ids c)) [
                | inl w ↦ ((c', none), branch_lem samples ids c unlocked q w, s')
                | inr w ↦
                    let (r, j, sound) = judged-IsSound ids c' h s' polled nonempty e w in
                    (r, branch_lem samples ids c unlocked q w ∙ j, sound)
              ]
            ]
      ]
