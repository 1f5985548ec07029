-- ===== src/Runtime/Watcher/Polls/Outcomes.antt =====
-- What a poll of a controller comes to (src/morningstar_modbus/runtime/watcher.py).
use morningstar_modbus_api.Prelude.{
  ℕ, ◌≡◌, refl, ap, ◌∙◌, subst, sym, Bool, Option, none, some, List, false, take, ◌∷◌, ◌++◌,
}
use morningstar_modbus_api.Prelude.Text.{Text}
use morningstar_modbus_api.Prelude.Maps.{lookup, put, lookup-put_same, lookup-remove_same}
use morningstar_modbus_api.Prelude.Floats.{Floats}
use morningstar_modbus_api.Errors.{Error, Result, ok, err}
use morningstar_modbus_api.Catalog.Decode.{RegisterFloats}
use morningstar_modbus_api.Catalog.Decode.Needs.{Returns}
use morningstar_modbus_api.Catalog.Derived.{RegisterValue}
use morningstar_modbus_api.Controllers.Lifecycle.{
  DeviceLifecycle, Policy, int, mark_connecting, mark_failure, times_pow,
}
use morningstar_modbus_api.Runtime.Endpoints.{DiscoveredDevice}
use morningstar_modbus_api.Runtime.Watcher.{lifecycle_of, lifecycle_or_new, option_list}
use morningstar_modbus_api.Polling.Samples.{PollPerformanceSample, finish}
use morningstar_modbus_api.Runtime.Watcher.Polls.{
  Services, Config, Clocks, State, Sample, run_profile, note_error, failed, succeeded, concluded,
  finished, identified, was_out, poll_one,
}
use morningstar_modbus_api.Transports.Client.{ReadOnlyModbusClient}

module _ (F : Floats) (R : RegisterFloats F) (C : ReadOnlyModbusClient) (I : Type 0)
    (V : Services F C I) (config : Config) (key : Text) where
  abbrev W : Type 0
  W = State F R C I V config

  abbrev Outcome : Type 0
  Outcome = Result (Option (Sample F R C I V config)) × W

  -- With a whole number of seconds the delay of a failure never overflows.
  mark_failure-Returns :
      (p : Policy) (utcnow : Text) (now : ℕ) (d : DeviceLifecycle) (n : ℕ)
      → p.initial_backoff ≡ int n
      → (mark_failure p utcnow now d).1 ≡ ok tt
  unfolding mark_failure times_pow
  mark_failure-Returns p utcnow now d n h = rw h refl

  note_error-Returns :
      (device_id c : Text) (performance : Sample F R C I V config) (clocks : Clocks F.Real)
      (r : Result (Unit {0})) (w : W)
      → r ≡ ok tt
      → Returns (note_error F R C I V config key device_id c performance clocks r w).0
  note_error-Returns device_id c performance clocks (err e) w h = cc
  note_error-Returns device_id c performance clocks (ok done) w h = (some performance, refl)

  -- The profile is run on a client that is kept.
  run_profile-keeps :
      (device : DiscoveredDevice I) (w : W)
      → (client : C.State) × (lookup key (run_profile F R C I V config key device w).1.clients
          ≡ some client)
  run_profile-keeps device w = (_, lookup-put_same key _ w.clients)

  -- What a poll that failed with the error leaves: the lifecycle with one failure more, no client,
  -- the client of the poll among the closed ones, and a sample that says that
  -- the poll failed and, in 1000 characters, why.
  pub record Fails (e : Error) (before : DeviceLifecycle) (client : C.State) (closed : List C.State)
      (clocks : Clocks F.Real) (o : Outcome) : Type 0 where
    pub lifecycle :
        lookup key o.1.lifecycles
        ≡ some (mark_failure config.policy clocks.utcnow clocks.monotonic before).0
    pub gone : lookup key o.1.clients ≡ none
    pub client_closed : o.1.closed ≡ client ∷ closed
    pub sample : Sample F R C I V config
    pub reported : o.0 ≡ ok (some sample)
    pub unsuccessful : PollPerformanceSample.success sample ≡ false
    pub reason : PollPerformanceSample.error sample ≡ take 1000 (V.show_error e)

  note_error-Fails :
      (device_id c : Text) (performance : Sample F R C I V config) (clocks : Clocks F.Real)
      (r : Result (Unit {0})) (e : Error) (before : DeviceLifecycle) (client : C.State) (w : W)
      → r ≡ ok tt
      → lookup key w.lifecycles
        ≡ some (mark_failure config.policy clocks.utcnow clocks.monotonic before).0
      → lookup key w.clients ≡ some client
      → PollPerformanceSample.success performance ≡ false
      → PollPerformanceSample.error performance ≡ take 1000 (V.show_error e)
      → Fails e before client w.closed clocks
          (note_error F R C I V config key device_id c performance clocks r w)
  note_error-Fails device_id c performance clocks (err x) e before client w h l k p q = cc
  note_error-Fails device_id c performance clocks (ok done) e before client w h l k p q = record {
    lifecycle = l;
    gone = lookup-remove_same key w.clients;
    client_closed = ap (λ o. option_list o ++ w.closed) k;
    sample = performance;
    reported = refl;
    unsuccessful = p;
    reason = q;
  }

  module _ (n : ℕ) (whole : config.policy.initial_backoff ≡ int n) where
    failed-Returns :
        (device_id c : Text) (device : DiscoveredDevice I) (interval : F.Real)
        (clocks : Clocks F.Real) (e : Error) (w : W)
        → Returns (failed F R C I V config key device_id c device interval clocks e w).0
    failed-Returns device_id c device interval clocks e w =
        note_error-Returns device_id c _ clocks _ _ (
          mark_failure-Returns config.policy clocks.utcnow clocks.monotonic (lifecycle_of key w) n
            whole)

    succeeded-Returns :
        (device_id c : Text) (reconnected : Bool) (device : DiscoveredDevice I) (interval : F.Real)
        (clocks : Clocks F.Real) (i : Result (Option I)) (w : W)
        → Returns
            (succeeded F R C I V config key device_id c reconnected device interval clocks i w).0
    succeeded-Returns device_id c reconnected device interval clocks (err e) w =
        failed-Returns device_id c device interval clocks e w
    succeeded-Returns device_id c reconnected device interval clocks (ok i) w = (_, refl)

    concluded-Returns :
        (device_id c : Text) (reconnected : Bool) (device : DiscoveredDevice I) (interval : F.Real)
        (clocks : Clocks F.Real) (r : Result (List (RegisterValue F.Real)) × W)
        → Returns
            (concluded F R C I V config key device_id c reconnected device interval clocks r).0
    concluded-Returns device_id c reconnected device interval clocks (err e, w) =
        failed-Returns device_id c device interval clocks e w
    concluded-Returns device_id c reconnected device interval clocks (ok values, w) =
        succeeded-Returns device_id c reconnected device interval clocks _ _

    identified-Returns :
        (device_id c : Option Text) (device : DiscoveredDevice I) (interval : F.Real)
        (clocks : Clocks F.Real) (w : W)
        → Returns (identified F R C I V config key device_id c device interval clocks w).0
    identified-Returns none c device interval clocks w = (none, refl)
    identified-Returns (some d) none device interval clocks w = (none, refl)
    identified-Returns (some d) (some c) device interval clocks w =
        concluded-Returns d c _ device interval clocks (run_profile F R C I V config key device w)

    -- A poll never raises, whatever the device answers or fails to, if the initial backoff is
    -- written as a whole number: a failed poll ends in a sample too.
    pub poll_one-Returns :
        (device : DiscoveredDevice I) (interval : F.Real) (clocks : Clocks F.Real) (w : W)
        → Returns (poll_one F R C I V config key device interval clocks w).0
    unfolding poll_one
    poll_one-Returns device interval clocks w =
        identified-Returns (lookup key w.device_ids) (lookup key w.controller_ids) device interval
          clocks w

    finished_lem :
        (success : Bool) (error : Text) (device : DiscoveredDevice I) (interval : F.Real)
        (clocks : Clocks F.Real) (v : W)
        → let sample = finished F R C I V config key success error interval clocks device v in
          (PollPerformanceSample.success sample ≡ success)
          × (PollPerformanceSample.error sample ≡ take 1000 error)
    unfolding finish
    finished_lem success error device interval clocks v = (refl, refl)

    failed-Fails :
        (device_id c : Text) (device : DiscoveredDevice I) (interval : F.Real)
        (clocks : Clocks F.Real) (e : Error) (v : W) (l : DeviceLifecycle) (client : C.State)
        → lookup key v.lifecycles ≡ some l
        → lookup key v.clients ≡ some client
        → Fails e l client v.closed clocks
            (failed F R C I V config key device_id c device interval clocks e v)
    failed-Fails device_id c device interval clocks e v l client h k =
        let note = λ (o : Option DeviceLifecycle).
          (mark_failure config.policy clocks.utcnow clocks.monotonic (lifecycle_or_new o)).0 in
        let (unsuccessful, reason) = finished_lem false (V.show_error e) device interval clocks v in
        note_error-Fails device_id c _ clocks _ e l client
          (record v { lifecycles = put key (note (lookup key v.lifecycles)) v.lifecycles })
          (mark_failure-Returns config.policy clocks.utcnow clocks.monotonic (lifecycle_of key v) n
            whole)
          (lookup-put_same key (note (lookup key v.lifecycles)) v.lifecycles
            ∙ ap (λ o. some (note o)) h)
          k unsuccessful reason

    -- A poll of a bound controller whose profile raises an error returns a sample that says that the
    -- poll failed, and why, in 1000 characters. It counts one failure of the lifecycle, and the client that the profile
    -- read through is closed and no longer kept, so that the next poll opens a new one. The initial
    -- backoff has to be a whole number.
    pub poll_one-Fails :
        (device : DiscoveredDevice I) (interval : F.Real) (clocks : Clocks F.Real) (w : W)
        (device_id c : Text) (e : Error)
        → lookup key w.device_ids ≡ some device_id
        → lookup key w.controller_ids ≡ some c
        → (run_profile F R C I V config key device w).0 ≡ err e
        → (client : C.State) × (lookup key (run_profile F R C I V config key device w).1.clients
            ≡ some client)
          × Fails e
              (mark_connecting (lifecycle_of key w))
              client
              w.closed
              clocks
              (poll_one F R C I V config key device interval clocks w)
    unfolding poll_one
    poll_one-Fails device interval clocks w device_id c e known bound raised =
        let v = (run_profile F R C I V config key device w).1 in
        let reconnected = was_out F R C I V config (lifecycle_of key w) in
        let step : poll_one F R C I V config key device interval clocks w
            ≡ failed F R C I V config key device_id c device interval clocks e v =
          ap
            (λ d.
              identified F R C I V config key d (lookup key w.controller_ids) device interval clocks
                w)
            known
          ∙ ap (λ d. identified F R C I V config key (some device_id) d device interval clocks w)
              bound
          ∙ ap
              (λ r.
                concluded F R C I V config key device_id c reconnected device interval clocks
                  (r, v))
              raised in
        let before = mark_connecting (lifecycle_of key w) in
        let (client, held) = run_profile-keeps device w in
        (
          client,
          held,
          subst (λ o. Fails e before client w.closed clocks o) (sym step)
              (failed-Fails device_id c device interval clocks e v before client
                (lookup-put_same key before w.lifecycles) held),
        )
