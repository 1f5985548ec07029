-- ===== src/Runtime/Watcher/Refresh.antt =====
-- What a refresh leaves under the key of each controller
-- (src/morningstar_modbus/runtime/watcher.py).
use morningstar_modbus_api.Prelude.{
  ℕ, ◌≡◌, refl, ap, ◌∙◌, inl, inr, Bool, true, false, not, Option, none, some, List, [], ◌∷◌, ◌&&◌,
  ◌||◌, leb, All, arith, Bool-cases, if◌then◌else◌,
}
use morningstar_modbus_api.Prelude.Text.{Text, text_eq, text_eq_sound, text_eq_refl}
use morningstar_modbus_api.Prelude.Maps.{
  lookup, put, lookup-put_same, lookup-put_other, lookup-remove_same, lookup-remove_other,
}
use morningstar_modbus_api.Controllers.Lifecycle.{
  DeviceLifecycle, LifecycleState, is_rediscovering, rediscovered_state, mark_discovered, can_poll,
}
use morningstar_modbus_api.Runtime.Endpoints.{Candidate}
use morningstar_modbus_api.Runtime.Watcher.{
  Watcher, left, leave, reopened, has_moved, differs, previous_device, is_key, is_some,
  lifecycle_or_new, bind_controller, bind_all, is_polled, all_missing, absent_from, missing_at,
  controller_missing, rebind,
}

text_eq_swap : (s t : Text) → text_eq s t ≡ false → text_eq t s ≡ false
text_eq_swap s t h = elim (Bool-cases (text_eq t s)) [
  | inl e ↦
      let same : t ≡ s = text_eq_sound t s e in
      let here : text_eq s t ≡ true = ap (text_eq s) same ∙ text_eq_refl s in cc
  | inr e ↦ e
]

not_rediscovering : (s : LifecycleState) → is_rediscovering (rediscovered_state s) ≡ false
not_rediscovering LifecycleState.discovered = refl
not_rediscovering LifecycleState.connecting = refl
not_rediscovering LifecycleState.online = refl
not_rediscovering LifecycleState.degraded = refl
not_rediscovering LifecycleState.offline = refl
not_rediscovering LifecycleState.rediscovering = refl

at_once : (b : Bool) (now : ℕ) → b ≡ false → (not b && leb 0 now) ≡ true
at_once b now h = ground arith

can_poll-mark_discovered :
    (moved : Bool) (utcnow : Text) (now : ℕ) (d : DeviceLifecycle)
    → can_poll now (mark_discovered moved utcnow d) ≡ true
unfolding mark_discovered can_poll
can_poll-mark_discovered moved utcnow now d =
    at_once (is_rediscovering (rediscovered_state d.state)) now (not_rediscovering d.state)

polled : (a b c : Bool) → a ≡ true → b ≡ true → c ≡ true → (a && b && c) ≡ true
polled a b c h k l = ground arith

unpolled : (a b c : Bool) → a ≡ false → (a && b && c) ≡ false
unpolled a b c h = ground arith

-- Neither controller stands in the other's way: different ids, different keys, and the later one
-- does not come from the key of the earlier.
abbrev pub IsClear :
    {I : Type 0} → List (Text × Text) → Text × Candidate I → Text × Candidate I → Type 0
IsClear keys (c, x) (c', y) =
    (text_eq c c' ≡ false) × (text_eq x.key y.key ≡ false) × (is_key (lookup c' keys) x.key ≡ false)

-- The same of each pair of the selection.
abbrev pub AreClear : {I : Type 0} → List (Text × Text) → List (Text × Candidate I) → Type 0
AreClear keys [] = Unit
AreClear keys (s ∷ selected) = All (IsClear keys s) selected × AreClear keys selected

module _ {S I : Type 0} where
  -- The same entries under a key, and the same keys of all controllers.
  abbrev Same : Text → Watcher S I → Watcher S I → Type 0
  Same j w w' =
      (lookup j w'.devices ≡ lookup j w.devices)
      × (lookup j w'.controller_ids ≡ lookup j w.controller_ids)
      × (lookup j w'.device_ids ≡ lookup j w.device_ids)
      × (lookup j w'.lifecycles ≡ lookup j w.lifecycles)
      × (w'.controller_keys ≡ w.controller_keys)

  reopened-Same : (test : Bool) (key j : Text) (w : Watcher S I) → Same j w (reopened test key w)
  reopened-Same true key j w = (refl, refl, refl, refl, refl)
  reopened-Same false key j w = (refl, refl, refl, refl, refl)

  leave-Same :
      (test : Bool) (k j : Text) (w : Watcher S I)
      → text_eq j k ≡ false
      → Same j w (if test then leave k w else w)
  leave-Same true k j w h = (
    lookup-remove_other j k w.devices h,
    lookup-remove_other j k w.controller_ids h,
    lookup-remove_other j k w.device_ids h,
    lookup-remove_other j k w.lifecycles h,
    refl,
  )
  leave-Same false k j w h = (refl, refl, refl, refl, refl)

  left-Same :
      (previous : Option Text) (key j : Text) (w : Watcher S I)
      → is_key previous j ≡ false
      → Same j w (left previous key w)
  left-Same none key j w h = (refl, refl, refl, refl, refl)
  left-Same (some k) key j w h = leave-Same (not (text_eq k key)) k j w (text_eq_swap k j h)

  -- The controller is bound to the key of its endpoint, and is polled from now on.
  pub record IsBound (now : ℕ) (c : Text) (x : Candidate I) (w : Watcher S I) : Type 0 where
    pub device : lookup x.key w.devices ≡ some x.device
    pub controller : lookup x.key w.controller_ids ≡ some c
    pub device_id : lookup x.key w.device_ids ≡ some x.device_id
    pub key : lookup c w.controller_keys ≡ some x.key
    pub is_due : is_polled now x.key w ≡ true

  bind_controller-IsBound :
      (utcnow : Text) (now : ℕ) (c : Text) (x : Candidate I) (w : Watcher S I)
      → IsBound now c x (bind_controller utcnow (c, x) w)
  unfolding bind_controller is_polled
  bind_controller-IsBound utcnow now c x w =
      let d = lookup-put_same x.key x.device in
      record {
        device = lookup-put_same x.key _ _;
        controller = lookup-put_same x.key _ _;
        device_id = lookup-put_same x.key _ _;
        key = lookup-put_same c _ _;
        is_due = rw (text_eq_refl x.key) (can_poll-mark_discovered _ utcnow now _);
      }

  Same-trans : (j : Text) (a b c : Watcher S I) → Same j a b → Same j b c → Same j a c
  Same-trans j a b c (d, e, f, g, h) (d', e', f', g', h') = (d' ∙ d, e' ∙ e, f' ∙ f, g' ∙ g, h' ∙ h)

  -- The controller `c'` moves to the key of `y`, away from the key of `x`.
  bind_controller-Same :
      (utcnow : Text) (c c' : Text) (x y : Candidate I) (w : Watcher S I)
      → text_eq x.key y.key ≡ false
      → is_key (lookup c' w.controller_keys) x.key ≡ false
      → let w' = bind_controller utcnow (c', y) w in
        (lookup x.key w'.devices ≡ lookup x.key w.devices)
        × (lookup x.key w'.controller_ids ≡ lookup x.key w.controller_ids)
        × (lookup x.key w'.device_ids ≡ lookup x.key w.device_ids)
        × (lookup x.key w'.lifecycles ≡ lookup x.key w.lifecycles)
        × (w'.controller_keys ≡ put c' y.key w.controller_keys)
  unfolding bind_controller
  bind_controller-Same utcnow c c' x y w apart free =
      let previous = lookup c' w.controller_keys in
      let w1 = left previous y.key w in
      let moved =
        has_moved previous y.key || differs (previous_device previous y.key w) y.device.endpoint in
      let test = moved && is_key previous y.key in
      let w2 = reopened test y.key w1 in
      let (d, e, f, g, h) =
        Same-trans x.key w w1 w2 (left-Same previous y.key x.key w free)
          (reopened-Same test y.key x.key w1) in
      (
        lookup-put_other x.key y.key _ w2.devices apart ∙ d,
        lookup-put_other x.key y.key _ w2.controller_ids apart ∙ e,
        lookup-put_other x.key y.key _ w2.device_ids apart ∙ f,
        lookup-put_other x.key y.key _ w2.lifecycles apart ∙ g,
        ap (put c' y.key) h,
      )

  is_polled-same :
      (now : ℕ) (key : Text) (w w' : Watcher S I)
      → lookup key w'.devices ≡ lookup key w.devices
      → lookup key w'.controller_ids ≡ lookup key w.controller_ids
      → lookup key w'.lifecycles ≡ lookup key w.lifecycles
      → is_polled now key w' ≡ is_polled now key w
  unfolding is_polled
  is_polled-same now key w w' d e f =
      ap
        (λ t.
          is_some t
          && is_some (lookup key w'.controller_ids)
          && can_poll now (lifecycle_or_new (lookup key w'.lifecycles)))
        d
      ∙ ap
          (λ t.
            is_some (lookup key w.devices)
            && is_some t
            && can_poll now (lifecycle_or_new (lookup key w'.lifecycles)))
          e
      ∙ ap
          (λ t.
            is_some (lookup key w.devices)
            && is_some (lookup key w.controller_ids)
            && can_poll now (lifecycle_or_new t))
          f

  bind_controller-IsBound_kept :
      (utcnow : Text) (now : ℕ) (c c' : Text) (x y : Candidate I) (w : Watcher S I)
      → text_eq x.key y.key ≡ false
      → text_eq c c' ≡ false
      → is_key (lookup c' w.controller_keys) x.key ≡ false
      → IsBound now c x w
      → IsBound now c x (bind_controller utcnow (c', y) w)
  bind_controller-IsBound_kept utcnow now c c' x y w apart other free b =
      let (d, e, f, g, h) = bind_controller-Same utcnow c c' x y w apart free in
      record {
        device = d ∙ b.device;
        controller = e ∙ b.controller;
        device_id = f ∙ b.device_id;
        key = ap (lookup c) h ∙ lookup-put_other c c' y.key w.controller_keys other ∙ b.key;
        is_due = is_polled-same now x.key w (bind_controller utcnow (c', y) w) d e g ∙ b.is_due;
      }

  left-keys :
      (previous : Option Text) (key : Text) (w : Watcher S I)
      → Watcher.controller_keys (left previous key w) ≡ w.controller_keys
  left-keys none key w = refl
  left-keys (some k) key w = elim (Bool-cases (text_eq k key)) [
    | inl e ↦ ap (λ t. Watcher.controller_keys (if not t then leave k w else w)) e
    | inr e ↦ ap (λ t. Watcher.controller_keys (if not t then leave k w else w)) e
  ]

  reopened-keys :
      (test : Bool) (key : Text) (w : Watcher S I)
      → Watcher.controller_keys (reopened test key w) ≡ w.controller_keys
  reopened-keys true key w = refl
  reopened-keys false key w = refl

  bind_controller-keys :
      (utcnow : Text) (c : Text) (x : Candidate I) (w : Watcher S I)
      → Watcher.controller_keys (bind_controller utcnow (c, x) w) ≡ put c x.key w.controller_keys
  unfolding bind_controller
  bind_controller-keys utcnow c x w =
      let previous = lookup c w.controller_keys in
      ap (put c x.key) (reopened-keys _ x.key (left previous x.key w) ∙ left-keys previous x.key w)

  -- The controllers still to come have the keys that they had.
  abbrev Agree : List (Text × Text) → Watcher S I → List (Text × Candidate I) → Type 0
  Agree keys w = All (λ s. lookup (s.0) w.controller_keys ≡ lookup (s.0) keys)

  Agree-bind_controller :
      (utcnow : Text) (keys : List (Text × Text)) (c : Text) (x : Candidate I)
      (selected : List (Text × Candidate I)) (w : Watcher S I)
      → All (IsClear keys (c, x)) selected
      → Agree keys w selected
      → Agree keys (bind_controller utcnow (c, x) w) selected
  Agree-bind_controller utcnow keys c x [] w clear agree = tt
  Agree-bind_controller utcnow keys c x ((d, z) ∷ selected) w ((ids, apart, free), clear)
        (e, agree) =
      (
        ap (lookup d) (bind_controller-keys utcnow c x w)
            ∙ lookup-put_other d c x.key w.controller_keys (text_eq_swap c d ids)
            ∙ e,
        Agree-bind_controller utcnow keys c x selected w clear agree,
      )

  bind_all-IsBound_kept :
      (utcnow : Text) (now : ℕ) (keys : List (Text × Text)) (c : Text) (x : Candidate I)
      (selected : List (Text × Candidate I)) (w : Watcher S I)
      → All (IsClear keys (c, x)) selected
      → AreClear keys selected
      → Agree keys w selected
      → IsBound now c x w
      → IsBound now c x (bind_all utcnow selected w)
  bind_all-IsBound_kept utcnow now keys c x [] w clear pairs agree b = b
  bind_all-IsBound_kept utcnow now keys c x ((d, z) ∷ selected) w ((ids, apart, free), clear)
        (first, pairs) (e, agree) b =
      bind_all-IsBound_kept utcnow now keys c x selected (bind_controller utcnow (d, z) w) clear
        pairs (Agree-bind_controller utcnow keys d z selected w first agree)
        (bind_controller-IsBound_kept utcnow now c d x z w apart ids
          (ap (λ k. is_key k x.key) e ∙ free) b)

  bind_all-IsBound :
      (utcnow : Text) (now : ℕ) (keys : List (Text × Text)) (selected : List (Text × Candidate I))
      (w : Watcher S I)
      → AreClear keys selected
      → Agree keys w selected
      → All (λ s. IsBound now (s.0) (s.1) (bind_all utcnow selected w)) selected
  bind_all-IsBound utcnow now keys [] w pairs agree = tt
  bind_all-IsBound utcnow now keys ((c, x) ∷ selected) w (first, pairs) (e, agree) =
      let w' = bind_controller utcnow (c, x) w in
      let agree' = Agree-bind_controller utcnow keys c x selected w first agree in
      (
        bind_all-IsBound_kept utcnow now keys c x selected w' first pairs agree'
            (bind_controller-IsBound utcnow now c x w),
        bind_all-IsBound utcnow now keys selected w' pairs agree',
      )

  missing_at-keys :
      (utcnow : Text) (k : Option Text) (w : Watcher S I)
      → Watcher.controller_keys (missing_at utcnow k w) ≡ w.controller_keys
  missing_at-keys utcnow none w = refl
  missing_at-keys utcnow (some k) w = refl

  all_missing-keys :
      (utcnow : Text) (cs : List Text) (w : Watcher S I)
      → Watcher.controller_keys (all_missing utcnow cs w) ≡ w.controller_keys
  unfolding controller_missing
  all_missing-keys utcnow [] w = refl
  all_missing-keys utcnow (c ∷ cs) w =
      all_missing-keys utcnow cs (controller_missing utcnow c w)
      ∙ missing_at-keys utcnow (lookup c w.controller_keys) w

  Agree-refl :
      (keys : List (Text × Text)) (w : Watcher S I) (selected : List (Text × Candidate I))
      → w.controller_keys ≡ keys
      → Agree keys w selected
  Agree-refl keys w [] h = tt
  Agree-refl keys w (s ∷ selected) h = (ap (lookup (s.0)) h, Agree-refl keys w selected h)

  -- The keys that count as present do not matter.
  presented :
      (now : ℕ) (keys ids : List Text) (w : Watcher S I) (selected : List (Text × Candidate I))
      → All (λ s. IsBound now (s.0) (s.1) w) selected
      → All
          (λ s.
            IsBound now
              (s.0)
              (s.1)
              (record w { present_controller_ids = ids; present_keys = keys }))
          selected
  unfolding is_polled
  presented now keys ids w [] h = tt
  presented now keys ids w (s ∷ selected) (b, later) = (
    record {
      device = b.device;
      controller = b.controller;
      device_id = b.device_id;
      key = b.key;
      is_due = b.is_due;
    },
    presented now keys ids w selected later,
  )

  -- After a refresh in which no two of the selected controllers stand in each other's way, each of
  -- them is bound to the endpoint that was chosen for it, under its key, and is polled from then on,
  -- whatever controllers went missing and whatever its retry delay was.
  pub rebind-IsBound :
      (utcnow : Text) (now : ℕ) (selected : List (Text × Candidate I)) (w : Watcher S I)
      → AreClear w.controller_keys selected
      → All (λ s. IsBound now (s.0) (s.1) (rebind utcnow selected w)) selected
  unfolding rebind
  rebind-IsBound utcnow now selected w clear =
      let missing = absent_from selected w.present_controller_ids in
      let w' = all_missing utcnow missing w in
      presented now _ _ (bind_all utcnow selected w') selected (
        bind_all-IsBound utcnow now w.controller_keys selected w' clear
          (Agree-refl w.controller_keys w' selected (all_missing-keys utcnow missing w)))

  left-devices :
      (k key : Text) (w : Watcher S I)
      → text_eq k key ≡ false
      → lookup k (Watcher.devices (left (some k) key w)) ≡ none
  left-devices k key w apart =
      ap (λ t. lookup k (Watcher.devices (if not t then leave k w else w))) apart
      ∙ lookup-remove_same k w.devices

  unbound :
      (utcnow : Text) (c k : Text) (y : Candidate I) (w : Watcher S I)
      → lookup c w.controller_keys ≡ some k
      → text_eq k y.key ≡ false
      → lookup k (Watcher.devices (bind_controller utcnow (c, y) w)) ≡ none
  unfolding bind_controller
  unbound utcnow c k y w from apart =
      let previous = lookup c w.controller_keys in
      let w1 = left previous y.key w in
      let moved =
        has_moved previous y.key || differs (previous_device previous y.key w) y.device.endpoint in
      let test = moved && is_key previous y.key in
      lookup-put_other k y.key _ (Watcher.devices (reopened test y.key w1)) apart
      ∙ (reopened-Same test y.key k w1).0
      ∙ ap (λ p. lookup k (Watcher.devices (left p y.key w))) from
      ∙ left-devices k y.key w apart

  -- A controller that is bound to a key in the course of a refresh loses its entries there to a later
  -- one that comes from that key and goes to another: the first still counts as bound to the key, and
  -- is not polled.
  pub bind_all_loses :
      (utcnow : Text) (now : ℕ) (first later : Text) (x y : Candidate I) (w : Watcher S I)
      → lookup later w.controller_keys ≡ some x.key
      → text_eq x.key y.key ≡ false
      → text_eq first later ≡ false
      → let w' = bind_all utcnow ((first, x) ∷ (later, y) ∷ []) w in
        (lookup first w'.controller_keys ≡ some x.key) × (is_polled now x.key w' ≡ false)
  unfolding is_polled
  bind_all_loses utcnow now first later x y w from apart other =
      let w1 = bind_controller utcnow (first, x) w in
      let still : lookup later w1.controller_keys ≡ some x.key =
        ap (lookup later) (bind_controller-keys utcnow first x w)
        ∙ lookup-put_other later first x.key w.controller_keys (text_eq_swap first later other)
        ∙ from in
      (
        ap (lookup first) (bind_controller-keys utcnow later y w1)
            ∙ lookup-put_other first later y.key w1.controller_keys other
            ∙ ap (lookup first) (bind_controller-keys utcnow first x w)
            ∙ lookup-put_same first x.key w.controller_keys,
        unpolled _ _ _ (ap is_some (unbound utcnow later x.key y w1 still apart)),
      )
