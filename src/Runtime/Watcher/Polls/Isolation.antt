-- ===== src/Runtime/Watcher/Polls/Isolation.antt =====
-- A poll of one controller leaves the entries of every other alone
-- (src/morningstar_modbus/runtime/watcher.py).
use morningstar_modbus_api.Prelude.{
  ◌≡◌, refl, ◌∙◌, Bool, true, false, Option, none, some, List, if◌then◌else◌,
}
use morningstar_modbus_api.Prelude.Text.{Text, text_eq}
use morningstar_modbus_api.Prelude.Maps.{lookup, put, lookup-put_other, lookup-remove_other}
use morningstar_modbus_api.Prelude.Floats.{Floats}
use morningstar_modbus_api.Errors.{Error, Result, ok, err}
use morningstar_modbus_api.Catalog.Decode.{RegisterFloats}
use morningstar_modbus_api.Catalog.Derived.{RegisterValue}
use morningstar_modbus_api.Controllers.Lifecycle.{DeviceLifecycle}
use morningstar_modbus_api.Runtime.Endpoints.{DiscoveredDevice}
use morningstar_modbus_api.Runtime.Watcher.{Watcher, Write, drop_client}
use morningstar_modbus_api.Runtime.Watcher.Polls.{
  Services, Config, Clocks, State, Sample, run_profile, persist, schedule_history_backfill,
  note_error, failed, succeeded, concluded, identified, keep_intelligence, poll_one,
}
use morningstar_modbus_api.Transports.Client.{ReadOnlyModbusClient}

-- The same entries under the key, and the same bindings of all controllers.
pub record Untouched {S I : Type 0} (j : Text) (w w' : Watcher S I) : Type 0 where
  pub lifecycle : lookup j w'.lifecycles ≡ lookup j w.lifecycles
  pub client : lookup j w'.clients ≡ lookup j w.clients
  pub profile : lookup j w'.profiles ≡ lookup j w.profiles
  pub tracker : lookup j w'.traffic ≡ lookup j w.traffic
  pub intelligence : lookup j w'.intelligence ≡ lookup j w.intelligence
  pub devices : w'.devices ≡ w.devices
  pub device_ids : w'.device_ids ≡ w.device_ids
  pub controller_ids : w'.controller_ids ≡ w.controller_ids
  pub controller_keys : w'.controller_keys ≡ w.controller_keys

module _ {S I : Type 0} (j : Text) where
  same : (w : Watcher S I) → Untouched j w w
  same w = record {
    lifecycle = refl;
    client = refl;
    profile = refl;
    tracker = refl;
    intelligence = refl;
    devices = refl;
    device_ids = refl;
    controller_ids = refl;
    controller_keys = refl;
  }

  trans : (a b c : Watcher S I) → Untouched j a b → Untouched j b c → Untouched j a c
  trans a b c h k = record {
    lifecycle = k.lifecycle ∙ h.lifecycle;
    client = k.client ∙ h.client;
    profile = k.profile ∙ h.profile;
    tracker = k.tracker ∙ h.tracker;
    intelligence = k.intelligence ∙ h.intelligence;
    devices = k.devices ∙ h.devices;
    device_ids = k.device_ids ∙ h.device_ids;
    controller_ids = k.controller_ids ∙ h.controller_ids;
    controller_keys = k.controller_keys ∙ h.controller_keys;
  }

  put-Untouched :
      (key : Text) (l : DeviceLifecycle) (w : Watcher S I)
      → text_eq j key ≡ false
      → Untouched j w (record w { lifecycles = put key l w.lifecycles })
  put-Untouched key l w h = record {
    lifecycle = lookup-put_other j key l w.lifecycles h;
    client = refl;
    profile = refl;
    tracker = refl;
    intelligence = refl;
    devices = refl;
    device_ids = refl;
    controller_ids = refl;
    controller_keys = refl;
  }

  drop_client-Untouched :
      (key : Text) (w : Watcher S I) → text_eq j key ≡ false → Untouched j w (drop_client key w)
  drop_client-Untouched key w h = record {
    lifecycle = refl;
    client = lookup-remove_other j key w.clients h;
    profile = refl;
    tracker = refl;
    intelligence = refl;
    devices = refl;
    device_ids = refl;
    controller_ids = refl;
    controller_keys = refl;
  }

module _ (F : Floats) (R : RegisterFloats F) (C : ReadOnlyModbusClient) (I : Type 0)
    (V : Services F C I) (config : Config) (j key : Text) (apart : text_eq j key ≡ false) where
  abbrev W : Type 0
  W = State F R C I V config

  abbrev Leaves : W → Result (Option (Sample F R C I V config)) × W → Type 0
  Leaves w r = Untouched j w r.1

  persist-Untouched :
      (c : Text) (x : Write) (clocks : Clocks F.Real) (w : W)
      → Untouched j w (persist F R C I V config c x clocks w)
  persist-Untouched c x clocks w = record {
    lifecycle = refl;
    client = refl;
    profile = refl;
    tracker = refl;
    intelligence = refl;
    devices = refl;
    device_ids = refl;
    controller_ids = refl;
    controller_keys = refl;
  }

  scheduled :
      (test : Bool) (a b : List Text) (w : W)
      → Untouched j w
          (if test then record w { history_attempted_controllers = a; history_running = b } else w)
  scheduled true a b w = record {
    lifecycle = refl;
    client = refl;
    profile = refl;
    tracker = refl;
    intelligence = refl;
    devices = refl;
    device_ids = refl;
    controller_ids = refl;
    controller_keys = refl;
  }
  scheduled false a b w = same j w

  schedule-Untouched :
      (c : Text) (device : DiscoveredDevice I) (reconnected : Bool) (w : W)
      → Untouched j w (schedule_history_backfill F R C I V config c device reconnected w)
  unfolding schedule_history_backfill
  schedule-Untouched c device reconnected w = scheduled _ _ _ w

  run_profile-Untouched :
      (device : DiscoveredDevice I) (w : W)
      → Untouched j w (run_profile F R C I V config key device w).1
  run_profile-Untouched device w = record {
    lifecycle = lookup-put_other j key _ w.lifecycles apart;
    client = lookup-put_other j key _ w.clients apart;
    profile = lookup-put_other j key _ w.profiles apart;
    tracker = lookup-put_other j key _ w.traffic apart;
    intelligence = refl;
    devices = refl;
    device_ids = refl;
    controller_ids = refl;
    controller_keys = refl;
  }

  note_error-Leaves :
      (device_id c : Text) (performance : Sample F R C I V config) (clocks : Clocks F.Real)
      (r : Result (Unit {0})) (w : W)
      → Leaves w (note_error F R C I V config key device_id c performance clocks r w)
  note_error-Leaves device_id c performance clocks (err e) w = same j w
  note_error-Leaves device_id c performance clocks (ok done) w =
      trans j w (drop_client key w) _ (drop_client-Untouched j key w apart)
        (persist-Untouched c _ clocks (drop_client key w))

  failed-Leaves :
      (device_id c : Text) (device : DiscoveredDevice I) (interval : F.Real)
      (clocks : Clocks F.Real) (e : Error) (w : W)
      → Leaves w (failed F R C I V config key device_id c device interval clocks e w)
  failed-Leaves device_id c device interval clocks e w =
      trans j w _ _ (put-Untouched j key _ w apart) (note_error-Leaves device_id c _ clocks _ _)

  keep-Untouched :
      (i : Option I) (w : W) → Untouched j w (keep_intelligence F R C I V config key i w)
  keep-Untouched none w = same j w
  keep-Untouched (some i) w = record {
    lifecycle = refl;
    client = refl;
    profile = refl;
    tracker = refl;
    intelligence = lookup-put_other j key i w.intelligence apart;
    devices = refl;
    device_ids = refl;
    controller_ids = refl;
    controller_keys = refl;
  }

  succeeded-Leaves :
      (device_id c : Text) (reconnected : Bool) (device : DiscoveredDevice I) (interval : F.Real)
      (clocks : Clocks F.Real) (i : Result (Option I)) (w : W)
      → Leaves w (succeeded F R C I V config key device_id c reconnected device interval clocks i w)
  succeeded-Leaves device_id c reconnected device interval clocks (err e) w =
      failed-Leaves device_id c device interval clocks e w
  succeeded-Leaves device_id c reconnected device interval clocks (ok i) w =
      let w1 = keep_intelligence F R C I V config key i w in
      trans j w w1 _ (keep-Untouched i w) (
        trans j w1 _ _ (persist-Untouched c _ clocks w1)
          (schedule-Untouched c device reconnected _))

  concluded-Leaves :
      (device_id c : Text) (reconnected : Bool) (device : DiscoveredDevice I) (interval : F.Real)
      (clocks : Clocks F.Real) (r : Result (List (RegisterValue F.Real)) × W)
      → Leaves
          (r.1)
          (concluded F R C I V config key device_id c reconnected device interval clocks r)
  concluded-Leaves device_id c reconnected device interval clocks (err e, w) =
      failed-Leaves device_id c device interval clocks e w
  concluded-Leaves device_id c reconnected device interval clocks (ok values, w) =
      trans j w _ _ (put-Untouched j key _ w apart)
        (succeeded-Leaves device_id c reconnected device interval clocks _ _)

  identified-Leaves :
      (device_id c : Option Text) (device : DiscoveredDevice I) (interval : F.Real)
      (clocks : Clocks F.Real) (w : W)
      → Leaves w (identified F R C I V config key device_id c device interval clocks w)
  identified-Leaves none c device interval clocks w = same j w
  identified-Leaves (some d) none device interval clocks w = same j w
  identified-Leaves (some d) (some c) device interval clocks w =
      trans j w (run_profile F R C I V config key device w).1 _ (run_profile-Untouched device w)
        (concluded-Leaves d c _ device interval clocks (run_profile F R C I V config key device w))

  -- A poll under a key, however it ends, leaves what is kept under any other key as it was: the
  -- lifecycle, the client, the profile with its cache, the tracker and the intelligence. It binds no
  -- controller to another key.
  pub poll_one-Untouched :
      (device : DiscoveredDevice I) (interval : F.Real) (clocks : Clocks F.Real) (w : W)
      → Untouched j w (poll_one F R C I V config key device interval clocks w).1
  unfolding poll_one
  poll_one-Untouched device interval clocks w =
      identified-Leaves (lookup key w.device_ids) (lookup key w.controller_ids) device interval
        clocks w
