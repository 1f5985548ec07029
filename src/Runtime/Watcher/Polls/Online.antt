-- ===== src/Runtime/Watcher/Polls/Online.antt =====
-- A controller that answers gets online: the poll of the watcher on top of the poll of the profile
-- (src/morningstar_modbus/runtime/watcher.py, src/morningstar_modbus/catalog/profile.py).
use morningstar_modbus_api.Prelude.{
  ◌≡◌, refl, ap, ◌∙◌, subst, sym, Bool, true, false, Option, none, some, List, All, if◌then◌else◌,
}
use morningstar_modbus_api.Prelude.Text.{Text}
use morningstar_modbus_api.Prelude.Maps.{lookup, put, lookup-put_same}
use morningstar_modbus_api.Prelude.Floats.{Floats}
use morningstar_modbus_api.Errors.{Result, ok, err}
use morningstar_modbus_api.Catalog.Decode.{RegisterFloats}
use morningstar_modbus_api.Catalog.Decode.Accepts.{ReadsNumerals}
use morningstar_modbus_api.Catalog.Decode.Needs.{Returns}
use morningstar_modbus_api.Catalog.Derived.{RegisterValue}
use morningstar_modbus_api.Catalog.Families.Decodes.{is_table_served}
use morningstar_modbus_api.Catalog.Types.{DeviceProfileSpec}
use morningstar_modbus_api.Catalog.Profile.{Profile}
use morningstar_modbus_api.Catalog.Profile.Coherent.{IsCoherent}
use morningstar_modbus_api.Catalog.Profile.Loads.{ReadsBlock}
use morningstar_modbus_api.Catalog.Profile.Reports.{is_ungated}
use morningstar_modbus_api.Catalog.Profile.Polls.{poll-reports}
use morningstar_modbus_api.Controllers.Lifecycle.{DeviceLifecycle, mark_connecting, mark_success}
use morningstar_modbus_api.Polling.Samples.{finish}
use morningstar_modbus_api.Runtime.Endpoints.{DiscoveredDevice}
use morningstar_modbus_api.Runtime.Watcher.{Watcher, KeptProfile, lifecycle_of, lifecycle_or_new}
use morningstar_modbus_api.Runtime.Watcher.Polls.{
  Services, Config, Clocks, State, Sample, run_profile, profile_for, client_for, firmware_of,
  succeeded, concluded, identified, refreshed, was_out, persist, schedule_history_backfill,
  keep_intelligence, poll_one,
}
use morningstar_modbus_api.Transports.Client.{ReadOnlyModbusClient, AnswersInFull}

module _ (F : Floats) (R : RegisterFloats F) (C : ReadOnlyModbusClient) (I : Type 0)
    (V : Services F C I) (config : Config) (key : Text) where
  abbrev W : Type 0
  W = State F R C I V config

  -- The poll returned a sample of a success, and the lifecycle is the one that noted it.
  pub record Succeeds (lifecycle : DeviceLifecycle)
      (o : Result (Option (Sample F R C I V config)) × W) : Type 0 where
    pub sample : Sample F R C I V config
    pub returned : o.0 ≡ ok (some sample)
    pub success : sample.success ≡ true
    pub noted : lookup key (Watcher.lifecycles (o.1)) ≡ some lifecycle

  either_lifecycles :
      (test : Bool) (a b : List Text) (w : W)
      → Watcher.lifecycles
          (if test then record w { history_attempted_controllers = a; history_running = b } else w)
        ≡ w.lifecycles
  either_lifecycles true a b w = refl
  either_lifecycles false a b w = refl

  scheduled_lifecycles :
      (c : Text) (device : DiscoveredDevice I) (reconnected : Bool) (w : W)
      → Watcher.lifecycles (schedule_history_backfill F R C I V config c device reconnected w)
        ≡ w.lifecycles
  unfolding schedule_history_backfill
  scheduled_lifecycles c device reconnected w = either_lifecycles _ _ _ w

  kept_lifecycles :
      (i : Option I) (w : W)
      → Watcher.lifecycles (keep_intelligence F R C I V config key i w) ≡ w.lifecycles
  kept_lifecycles none w = refl
  kept_lifecycles (some i) w = refl

  succeeded-Succeeds :
      (device_id c : Text) (reconnected : Bool) (device : DiscoveredDevice I) (interval : F.Real)
      (clocks : Clocks F.Real) (r : Result (Option I)) (w : W) (l : DeviceLifecycle)
      → Returns r
      → lookup key w.lifecycles ≡ some l
      → Succeeds l
          (succeeded F R C I V config key device_id c reconnected device interval clocks r w)
  unfolding finish
  succeeded-Succeeds device_id c reconnected device interval clocks (err e) w l (i, h) k = cc
  succeeded-Succeeds device_id c reconnected device interval clocks (ok i) w l h k = record {
    sample = _;
    returned = refl;
    success = refl;
    noted =
        ap (lookup key) (
          scheduled_lifecycles c device reconnected
            (persist F R C I V config c _ clocks (keep_intelligence F R C I V config key i w))
          ∙ kept_lifecycles i w)
        ∙ k;
  }

  -- The profile that the poll uses, and its object with the client of the poll.
  abbrev pub kept_for : DiscoveredDevice I → W → KeptProfile
  kept_for device w = profile_for (lookup key w.profiles) device.profile

  abbrev pub object_of : DiscoveredDevice I → W → Profile C
  object_of device w = record {
    metadata = KeptProfile.metadata (kept_for device w);
    cached_blocks = KeptProfile.cached_blocks (kept_for device w);
    client = client_for F R C I V config key device w;
  }

  -- A bound controller whose device answers every block that is not optional, with a served table
  -- without firmware gates and a coherent cache, and whose intelligence can be refreshed, is polled
  -- with success, and its lifecycle notes that, whatever state it was in. The client answers in
  -- full. It is assumed that float() reads a plain numeral as a number that is not zero.
  pub poll_one-Succeeds :
      AnswersInFull C
      → ReadsNumerals F R
      → (device : DiscoveredDevice I) (interval : F.Real) (clocks : Clocks F.Real) (w : W)
        (device_id c : Text)
      → lookup key w.device_ids ≡ some device_id
      → lookup key w.controller_ids ≡ some c
      → is_table_served (KeptProfile.spec (kept_for device w)) ≡ true
      → is_ungated (KeptProfile.spec (kept_for device w)) ≡ true
      → All (ReadsBlock C) (DeviceProfileSpec.blocks (KeptProfile.spec (kept_for device w)))
      → IsCoherent (object_of device w)
      → ((values : List (RegisterValue F.Real))
          → Returns (refreshed F R C I V config (lookup key w.intelligence) values device.endpoint))
      → Succeeds
          (mark_success clocks.utcnow (mark_connecting (lifecycle_of key w)))
          (poll_one F R C I V config key device interval clocks w)
  unfolding poll_one
  poll_one-Succeeds full numerals device interval clocks w device_id c known bound served free reads
        coherent refreshes =
      let v = (run_profile F R C I V config key device w).1 in
      let reconnected = was_out F R C I V config (lifecycle_of key w) in
      let (values, returned, found) =
        poll-reports F R C full numerals V.show (KeptProfile.spec (kept_for device w)) served free
          reads (firmware_of F R C I V config (lookup key w.intelligence)) (object_of device w)
          coherent in
      let connecting = mark_connecting (lifecycle_of key w) in
      let after = record v {
        lifecycles = put key (mark_success clocks.utcnow (lifecycle_of key v)) v.lifecycles;
      } in
      let step : poll_one F R C I V config key device interval clocks w
          ≡ succeeded F R C I V config key device_id c reconnected device interval clocks
              (refreshed F R C I V config (lookup key w.intelligence) values device.endpoint)
              after =
        ap
          (λ d.
            identified F R C I V config key d (lookup key w.controller_ids) device interval clocks
              w)
          known
        ∙ ap (λ d. identified F R C I V config key (some device_id) d device interval clocks w)
            bound
        ∙ ap
            (λ r.
              concluded F R C I V config key device_id c reconnected device interval clocks (r, v))
            returned in
      subst (Succeeds (mark_success clocks.utcnow connecting)) (sym step) (
        succeeded-Succeeds device_id c reconnected device interval clocks _ after
          (mark_success clocks.utcnow connecting) (refreshes values)
          (lookup-put_same key (mark_success clocks.utcnow (lifecycle_of key v)) v.lifecycles
            ∙ ap (λ o. some (mark_success clocks.utcnow (lifecycle_or_new o)))
                (lookup-put_same key connecting w.lifecycles)))
