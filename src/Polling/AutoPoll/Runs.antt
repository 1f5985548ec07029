-- ===== src/Polling/AutoPoll/Runs.antt =====
-- Histories of one AutoPollIntervalController (src/morningstar_modbus/polling/service.py): the
-- calls that Watcher makes of it, in any order.
use morningstar_modbus_api.Prelude.{
  ℕ, ◌<◌, ◌≡◌, ◌⊎◌, refl, sym, ap, subst, ◌∙◌, inl, inr, false, none, some, List, [], ◌∷◌, ltb,
  arith, length, get_elem?, All, Bool-cases, Option-cases,
}
use morningstar_modbus_api.Prelude.Text.{Text}
use morningstar_modbus_api.Prelude.Maps.{lookup}
use morningstar_modbus_api.Prelude.Floats.{Floats, insert_slower, sorted_set_reverse}
use morningstar_modbus_api.Errors.{Result, ok, ok-injective, ◌>>=◌, raise_if_passed}
use morningstar_modbus_api.Polling.Benchmark.{BenchmarkThresholds, element}
use morningstar_modbus_api.Polling.Benchmark.Stages.{HasFractions, get_elem?_in_range}
use morningstar_modbus_api.Polling.AutoPoll.{
  AutoPollIntervalController, Sample, current_interval_seconds, reset, observe, new_controller,
  locked_or,
}
use morningstar_modbus_api.Polling.AutoPoll.Evidence.{IsSeenDict, IsProven}
use morningstar_modbus_api.Polling.AutoPoll.Safety.{IsSound, observe-IsSound}

at_least_three : (n : ℕ) → ltb n 3 ≡ false → 0 < n
at_least_three n h = ground arith

module _ (F : Floats) where
  pub data Call : Type 0 where
    observes : List (Text × Sample F) → List Text → Call
    resets : Call

  unfoldable pub step : Call → AutoPollIntervalController F → Result (AutoPollIntervalController F)
  unfolding reset
  step (observes samples ids) c = do (c', message) ← observe F samples ids c; ok c'
  step resets c = ok (reset F c)

  -- The newest call stands first.
  unfoldable pub run :
      AutoPollIntervalController F → List Call → Result (AutoPollIntervalController F)
  run c [] = ok c
  run c (call ∷ earlier) = do before ← run c earlier; step call before

  sorted_cons : (x : F.Real) (xs : List F.Real) → 0 < length (sorted_set_reverse F (x ∷ xs))
  sorted_cons x xs = insert_length x (sorted_set_reverse F xs)
    where
      insert_length : (x : F.Real) (ys : List F.Real) → 0 < length (insert_slower F x ys)
      insert_length x [] = omega arith
      insert_length x (y ∷ ys) = elim (Bool-cases (F.equal x y)) [
        | inl e ↦ rw e (omega arith)
        | inr e ↦ elim (Bool-cases (F.less y x)) [
          | inl g ↦ rw e (rw g (omega arith))
          | inr g ↦ rw e (rw g (omega arith))
        ]
      ]

  -- The call was made.
  pub data Among (call : Call) : List Call → Type 0 where
    newest : (earlier : List Call) → Among call (call ∷ earlier)
    older : (later : Call) (earlier : List Call) → Among call earlier → Among call (later ∷ earlier)

  -- A call polled just these controllers.
  pub record WasPolled (calls : List Call) (ids : List Text) : Type 0 where
    pub samples : List (Text × Sample F)
    pub made : Among (observes samples ids) calls

  -- A call brought the sample of the controller.
  pub record WasSeen (calls : List Call) (id : Text) (s : Sample F) : Type 0 where
    pub samples : List (Text × Sample F)
    pub ids : List Text
    pub made : Among (observes samples ids) calls
    pub brought : lookup id samples ≡ some s

module _ (F : Floats) (Seen : Text → Sample F → Type 0) (Polled : List Text → Type 0) where
  -- The samples of a call were observed of the controllers, which were polled.
  abbrev IsSeenCall : Call F → Type 0
  IsSeenCall (observes samples ids) = IsSeenDict F Seen samples × Polled ids
  IsSeenCall resets = Unit

  abbrev fresh :
      List F.Real → ℕ → BenchmarkThresholds F.Real → F.Real → AutoPollIntervalController F
  fresh intervals n t fallback = record {
    intervals_seconds = sorted_set_reverse F (fallback ∷ intervals);
    samples_per_interval = n;
    thresholds = t;
    fallback_interval_seconds = fallback;
    stage_index = 0;
    last_safe_interval = none;
    locked_interval = none;
    samples = [];
  }

  fresh-IsSound :
      (intervals : List F.Real) (n : ℕ) (t : BenchmarkThresholds F.Real) (fallback : F.Real)
      → ltb n 3 ≡ false
      → IsSound F Seen Polled (fresh intervals n t fallback) (fresh intervals n t fallback)
  fresh-IsSound intervals n t fallback enough = record {
    keeps = (refl, refl, refl, refl);
    some_samples = at_least_three n enough;
    in_range = sorted_cons F fallback intervals;
    seen = λ id ss found. cc;
    safe = λ r q. cc;
    locked = λ r q. cc;
  }

  new_controller-IsSound :
      (intervals : List F.Real) (n : ℕ) (t : BenchmarkThresholds F.Real) (fallback : F.Real)
      (c : AutoPollIntervalController F)
      → new_controller F intervals n t fallback ≡ ok c
      → IsSound F Seen Polled (fresh intervals n t fallback) c
  unfolding new_controller
  new_controller-IsSound intervals n t fallback c h =
      let (nonempty, h1) = raise_if_passed _ _ _ h in
      let (enough, h2) = raise_if_passed _ _ _ h1 in
      let (slow, h3) = raise_if_passed _ _ _ h2 in
      subst (λ x. IsSound F Seen Polled (fresh intervals n t fallback) x) (ok-injective _ _ h3)
        (fresh-IsSound intervals n t fallback enough)

module _ (F : Floats) (Seen : Text → Sample F → Type 0) (Polled : List Text → Type 0)
    (start : AutoPollIntervalController F) where
  step-IsSound :
      (call : Call F) (c : AutoPollIntervalController F)
      → HasFractions F
      → IsSeenCall F Seen Polled call
      → IsSound F Seen Polled start c
      → (c' : AutoPollIntervalController F) × (step F call c ≡ ok c')
        × IsSound F Seen Polled start c'
  unfolding step reset
  step-IsSound (observes samples ids) c h k s =
      let (r, e, sound) = observe-IsSound F Seen Polled start samples ids c h k.0 k.1 s in
      (r.0, rw e refl, sound)
  step-IsSound resets c h k s = (
    reset F c,
    refl,
    record {
      keeps = s.keeps;
      some_samples = s.some_samples;
      in_range = omega (arith, s.in_range);
      seen = λ id ss found. cc;
      safe = λ r q. cc;
      locked = λ r q. cc;
    },
  )

  run-IsSound :
      (calls : List (Call F)) (c : AutoPollIntervalController F)
      → HasFractions F
      → All (IsSeenCall F Seen Polled) calls
      → IsSound F Seen Polled start c
      → (c' : AutoPollIntervalController F) × (run F c calls ≡ ok c')
        × IsSound F Seen Polled start c'
  unfolding run
  run-IsSound [] c h k s = (c, refl, s)
  run-IsSound (call ∷ earlier) c h k s =
      let (before, e, sound) = run-IsSound earlier c h k.1 s in
      let (after, e', sound') = step-IsSound call before h k.0 sound in (after, rw e e', sound')

  -- The interval in force after a history.
  interval_in_force :
      (c : AutoPollIntervalController F)
      → IsSound F Seen Polled start c
      → (r : F.Real) × (current_interval_seconds F c ≡ ok r)
        × (((c.locked_interval ≡ none) × (get_elem? c.intervals_seconds c.stage_index ≡ some r))
            ⊎ ((c.locked_interval ≡ some r)
                × ((r ≡ c.fallback_interval_seconds)
                    ⊎ IsProven F Seen Polled c.samples_per_interval c.thresholds r)))
  unfolding current_interval_seconds
  interval_in_force c s = elim (Option-cases c.locked_interval) [
    | inl e ↦
        let (r, at) = get_elem?_in_range c.intervals_seconds c.stage_index s.in_range in
        (
          r,
          ap (λ o. locked_or F o (element (get_elem? c.intervals_seconds c.stage_index))) e
              ∙ ap (λ o. element o) at,
          inl (e, at),
        )
    | inr (r, e) ↦ (
      r,
      ap (λ o. locked_or F o (element (get_elem? c.intervals_seconds c.stage_index))) e,
      inr (e, s.locked r e),
    )
  ]

module _ (F : Floats) where
  WasSeen-IsSeenCall :
      (all calls : List (Call F))
      → ((call : Call F) → Among F call calls → Among F call all)
      → All (IsSeenCall F (WasSeen F all) (WasPolled F all)) calls
  WasSeen-IsSeenCall all [] h = tt
  WasSeen-IsSeenCall all (observes samples ids ∷ calls) h =
      let made = h (observes samples ids) (newest calls) in
      (
        (
          λ id s found. record { samples = samples; ids = ids; made = made; brought = found },
          record { samples = samples; made = made },
        ),
        WasSeen-IsSeenCall all calls (λ call m. h call (older (observes samples ids) calls m)),
      )
  WasSeen-IsSeenCall all (resets ∷ calls) h =
      (tt, WasSeen-IsSeenCall all calls (λ call m. h call (older resets calls m)))

  -- What the controller tells the watcher after the calls: the interval of its stage while it
  -- calibrates, and afterwards the fallback, or an interval that is proven by the calls.
  pub record Tells (intervals : List F.Real) (n : ℕ) (t : BenchmarkThresholds F.Real)
      (fallback : F.Real) (calls : List (Call F)) (c : AutoPollIntervalController F) (r : F.Real)
      : Type 0 where
    pub told : current_interval_seconds F c ≡ ok r
    pub reason :
        ((c.locked_interval ≡ none)
          × (get_elem? (sorted_set_reverse F (fallback ∷ intervals)) c.stage_index ≡ some r))
        ⊎ ((c.locked_interval ≡ some r)
            × ((r ≡ fallback) ⊎ IsProven F (WasSeen F calls) (WasPolled F calls) n t r))

  pub run_safe :
      (intervals : List F.Real) (n : ℕ) (t : BenchmarkThresholds F.Real) (fallback : F.Real)
      (c : AutoPollIntervalController F) (calls : List (Call F))
      → HasFractions F
      → new_controller F intervals n t fallback ≡ ok c
      → (c' : AutoPollIntervalController F) × (r : F.Real) × (run F c calls ≡ ok c')
        × Tells intervals n t fallback calls c' r
  run_safe intervals n t fallback c calls h made =
      let Seen = WasSeen F calls in
      let Polled = WasPolled F calls in
      let start = fresh F Seen Polled intervals n t fallback in
      let sound = new_controller-IsSound F Seen Polled intervals n t fallback c made in
      let seen = WasSeen-IsSeenCall calls calls (λ call m. m) in
      let (c', e, sound') = run-IsSound F Seen Polled start calls c h seen sound in
      let (r, now, which) = interval_in_force F Seen Polled start c' sound' in
      let (same_intervals, same_n, same_t, same_fallback) = sound'.keeps in
      (
        c',
        r,
        e,
        record {
          told = now;
          reason = elim which [
            | inl (running, at) ↦
                inl (running, ap (λ xs. get_elem? xs c'.stage_index) (sym same_intervals) ∙ at)
            | inr (locked, inl back) ↦ inr (locked, inl (back ∙ same_fallback))
            | inr (locked, inr proven) ↦ inr (
              locked,
              inr (
                  subst (λ x. IsProven F Seen Polled n x r) same_t
                    (subst (λ x. IsProven F Seen Polled x c'.thresholds r) same_n proven)),
            )
          ];
        },
      )
