-- ===== src/Runtime/Endpoints.antt =====
-- Endpoints and the choice of one endpoint for each controller: Endpoint and DiscoveredDevice of
-- src/morningstar_modbus/domain/models.py, _select_controller_endpoints of
-- src/morningstar_modbus/runtime/watcher.py. The intelligence of a device is a parameter.
pub mod Choice
use morningstar_modbus_api.Prelude.{
  ℕ, zero, suc, ◌/◌, ◌%◌, ◌^◌, Bool, true, false, not, Option, none, some, List, [], ◌∷◌, ◌++◌,
  ◌&&◌, ◌||◌, ltb, ◌==◌, if◌then◌else◌,
}
use morningstar_modbus_api.Prelude.Text.{Text, text, text_eq, hex_digit}
use morningstar_modbus_api.Prelude.Maps.{lookup}
use morningstar_modbus_api.Catalog.Scaling.{decimal}

pub data TransportName : Type 0 where
  tcp serial : TransportName

pub record Endpoint : Type 0 where
  pub transport : TransportName
  pub target : Text
  pub unit_id : ℕ
  pub port : Option ℕ
  pub baudrate : Option ℕ
  pub stop_bits : Option ℕ
  pub usb_serial : Option Text
  pub usb_vid : Option ℕ
  pub usb_pid : Option ℕ

pub record DiscoveredDevice (I : Type 0) : Type 0 where
  pub endpoint : Endpoint
  pub profile : Text
  pub intelligence : Option I

-- x or other, of a number
abbrev pub or_else : Option ℕ → ℕ → ℕ
or_else none other = other
or_else (some zero) other = other
or_else (some (suc n)) other = suc n

abbrev is_tcp : TransportName → Bool
is_tcp tcp = true
is_tcp serial = false

abbrev pub transport_name : TransportName → Text
transport_name tcp = text "tcp"
transport_name serial = text "serial"

unfoldable pub locator : Endpoint → Text
locator e =
    if is_tcp e.transport then e.target ++ text ":" ++ decimal (or_else e.port 502) else e.target

-- bool(text), of None or a text
abbrev pub is_given : Option Text → Bool
is_given none = false
is_given (some []) = false
is_given (some (c ∷ s)) = true

abbrev value_or : Option Text → Text
value_or none = []
value_or (some s) = s

-- f"{n:04x}" of a number below 65536, as the USB ids are
abbrev hex_id : ℕ → ℕ → Text
hex_id zero n = []
hex_id (suc digits) n = hex_digit (n / 16 ^ digits % 16) ∷ hex_id digits n

abbrev by_ids : Endpoint → Option ℕ → Option ℕ → Text → Text
by_ids e (some vid) (some pid) otherwise =
    text "serial:vidpid:"
    ++ hex_id 4 vid
    ++ text ":"
    ++ hex_id 4 pid
    ++ text ":"
    ++ e.target
    ++ text ":unit:"
    ++ decimal e.unit_id
by_ids e vid pid otherwise = otherwise

unfoldable pub stable_key : Endpoint → Text
unfolding locator
stable_key e =
    let located =
      transport_name e.transport ++ text ":" ++ locator e ++ text ":unit:" ++ decimal e.unit_id in
    if is_tcp e.transport
    then located
    else if is_given e.usb_serial
    then text "serial:usb:" ++ value_or e.usb_serial ++ text ":unit:" ++ decimal e.unit_id
    else by_ids e e.usb_vid e.usb_pid located

abbrev same_transport : TransportName → TransportName → Bool
same_transport s t = (is_tcp s && is_tcp t) || (not (is_tcp s) && not (is_tcp t))

abbrev same_number : Option ℕ → Option ℕ → Bool
same_number none none = true
same_number (some m) (some n) = m == n
same_number none (some n) = false
same_number (some m) none = false

abbrev same_text : Option Text → Option Text → Bool
same_text none none = true
same_text (some s) (some t) = text_eq s t
same_text none (some t) = false
same_text (some s) none = false

-- d == e of two endpoints
abbrev pub same_endpoint : Endpoint → Endpoint → Bool
same_endpoint d e =
    same_transport d.transport e.transport
    && text_eq d.target e.target
    && d.unit_id == e.unit_id
    && same_number d.port e.port
    && same_number d.baudrate e.baudrate
    && same_number d.stop_bits e.stop_bits
    && same_text d.usb_serial e.usb_serial
    && same_number d.usb_vid e.usb_vid
    && same_number d.usb_pid e.usb_pid

-- An observation of a controller: the device row, the key of the endpoint, and the device.
pub record Candidate (I : Type 0) : Type 0 where
  pub device_id : Text
  pub key : Text
  pub device : DiscoveredDevice I

abbrev pub text_less : Text → Text → Bool
text_less [] [] = false
text_less [] (d ∷ t) = true
text_less (c ∷ s) [] = false
text_less (c ∷ s) (d ∷ t) = let rest = text_less s t in if c == d then rest else ltb c d

abbrev pub rank : Endpoint → ℕ
rank e = if is_tcp e.transport then 0 else if is_given e.usb_serial then 1 else 2

abbrev pub has_key : Option Text → Text → Bool
has_key none key = false
has_key (some existing) key = text_eq key existing

abbrev pub first_some {ℓ} : {A : Type ℓ} → Option A → Option A → Option A
first_some none other = other
first_some (some a) other = some a

module _ {I : Type 0} where
  -- _endpoint_preference(x) < _endpoint_preference(y)
  abbrev pub preferred : Candidate I → Candidate I → Bool
  preferred x y =
      let r = rank x.device.endpoint in
      let s = rank y.device.endpoint in if r == s then text_less x.key y.key else ltb r s

  abbrev pub min_from : Candidate I → List (Candidate I) → Candidate I
  min_from best [] = best
  min_from best (x ∷ xs) = min_from (if preferred x best then x else best) xs

  -- min(candidates, key=...), of at least one
  abbrev pub best_of : List (Candidate I) → Option (Candidate I)
  best_of [] = none
  best_of (x ∷ xs) = some (min_from x xs)

  -- next((item for item in candidates if item[1] == existing_key), None)
  abbrev pub existing_of : Option Text → List (Candidate I) → Option (Candidate I)
  existing_of k [] = none
  existing_of k (x ∷ xs) = let rest = existing_of k xs in if has_key k x.key then some x else rest

  unfoldable pub choose : Option Text → List (Candidate I) → Option (Candidate I)
  choose existing_key candidates =
      first_some (existing_of existing_key candidates) (best_of candidates)

  -- grouped.setdefault(controller_id, []).append(item), in the order of the first items
  abbrev pub group_with :
      Text → Candidate I → List (Text × List (Candidate I)) → List (Text × List (Candidate I))
  group_with c x [] = (c, x ∷ []) ∷ []
  group_with c x ((d, xs) ∷ groups) =
      let rest = group_with c x groups in
      if text_eq c d then (d, xs ++ x ∷ []) ∷ groups else (d, xs) ∷ rest

  abbrev pub grouped :
      List (Text × List (Candidate I))
      → List (Text × Candidate I)
      → List (Text × List (Candidate I))
  grouped groups [] = groups
  grouped groups ((c, x) ∷ resolved) = grouped (group_with c x groups) resolved

  abbrev add_choice :
      Text → Option (Candidate I) → List (Text × Candidate I) → List (Text × Candidate I)
  add_choice c none rest = rest
  add_choice c (some x) rest = (c, x) ∷ rest

  abbrev pub choose_all :
      List (Text × Text) → List (Text × List (Candidate I)) → List (Text × Candidate I)
  choose_all controller_keys [] = []
  choose_all controller_keys ((c, xs) ∷ groups) =
      add_choice c (choose (lookup c controller_keys) xs) (choose_all controller_keys groups)

  unfoldable pub select_controller_endpoints :
      List (Text × Text) → List (Text × Candidate I) → List (Text × Candidate I)
  unfolding choose
  select_controller_endpoints controller_keys resolved =
      choose_all controller_keys (grouped [] resolved)
