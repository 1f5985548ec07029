-- ===== src/Intelligence/Resolver.antt =====
-- The identity of a device and how far it can be trusted: score, negotiate_capabilities,
-- resolve_device_intelligence and refresh_intelligence of src/morningstar_modbus/intelligence
-- (confidence.py, capabilities.py, models.py, resolver.py). The messages of evidence and warnings
-- are left out, and the network of a profile; str(value) of a float is a parameter.
pub mod Refresh
mod Tests
use morningstar_modbus_api.Prelude.{
  ℕ, Bool, true, false, not, Option, none, some, List, [], ◌∷◌, ◌++◌, ◌&&◌, ◌||◌, any, map,
  if◌then◌else◌,
}
use morningstar_modbus_api.Prelude.Text.{Text, text, text_eq, starts_with}
use morningstar_modbus_api.Prelude.Maps.{lookup, put}
use morningstar_modbus_api.Prelude.Int.{ltb_ℤ, pos}
use morningstar_modbus_api.Prelude.Floats.{Floats, sum}
use morningstar_modbus_api.Errors.{Error, Result, ok, err, ◌>>=◌}
use morningstar_modbus_api.Actions.{Action}
use morningstar_modbus_api.Catalog.Types.{DeviceProfileSpec}
use morningstar_modbus_api.Catalog.Compatibility.{
  Firmware, written, version_tuple, compare_versions,
}
use morningstar_modbus_api.Catalog.Decode.{RegisterFloats, Value, real, integer, string}
use morningstar_modbus_api.Catalog.Derived.{RegisterValue}
use morningstar_modbus_api.Catalog.Naming.{show_integer}
use morningstar_modbus_api.Catalog.Profile.{CatalogProfile, Profile, read_metadata}
use morningstar_modbus_api.Catalog.Registry.{
  casefold, contains, select_spec, get_profile, detect_profile,
}
use morningstar_modbus_api.Intelligence.Validation.{
  Decoded, finite, not_finite, whole, other, IssueCode, non_finite, implausible_value, Evidence,
  named_registers, checks_failed, plausible, is_named, validate_values,
}
use morningstar_modbus_api.Intelligence.Validation
use morningstar_modbus_api.Protocol.Codec.{DeviceIdentification}
use morningstar_modbus_api.Runtime.Endpoints.{TransportName, tcp, serial, Endpoint, text_less}
use morningstar_modbus_api.Transports.Client.{ReadOnlyModbusClient}

pub data EvidenceCode : Type 0 where
  vendor_matched product_code_matched fingerprint_matched : EvidenceCode
  metadata_decoded firmware_resolved serial_resolved : EvidenceCode
  registers_decoded telemetry_plausibility : EvidenceCode

pub record IntelligenceEvidence (Real : Type 0) : Type 0 where
  pub code : EvidenceCode
  pub weight : Real
  pub passed : Bool

pub data WarningCode : Type 0 where
  metadata_unavailable newer_firmware : WarningCode
  dynamic : IssueCode → WarningCode

pub data Severity : Type 0 where
  info warning error : Severity

pub record Warning : Type 0 where
  pub code : WarningCode
  pub severity : Severity

pub data IntelligenceStatus : Type 0 where
  verified probable family_only newer_firmware_unverified generic invalid : IntelligenceStatus

pub record DeviceIntelligence (Real : Type 0) : Type 0 where
  pub profile : Text
  pub family : Text
  pub model : Text
  pub serial_number : Text
  pub firmware : Text
  pub hardware_revision : Text
  pub catalog_revision : Text
  pub confidence : Real
  pub status : IntelligenceStatus
  pub capabilities : List Text
  pub evidence : List (IntelligenceEvidence Real)
  pub warnings : List Warning
  pub metadata : List (Text × Value Real)

abbrev insert_name : Text → List Text → List Text
insert_name s [] = s ∷ []
insert_name s (t ∷ ts) =
    let rest = insert_name s ts in
    if text_eq s t then t ∷ ts else if text_less s t then s ∷ t ∷ ts else t ∷ rest

-- sorted(set(names))
abbrev pub sorted_names : List Text → List Text
sorted_names [] = []
sorted_names (s ∷ names) = insert_name s (sorted_names names)

abbrev added : Bool → Text → List Text
added test name = if test then name ∷ [] else []

abbrev transport_capability : Option Endpoint → List Text
transport_capability none = []
transport_capability (some e) = elim e.transport [
  | tcp ↦ text "modbus_tcp" ∷ []
  | serial ↦ text "rtu" ∷ []
]

unfoldable pub negotiate_capabilities : DeviceProfileSpec → Option Endpoint → List Text → List Text
negotiate_capabilities spec endpoint names =
    let has = λ (name : Text). any (text_eq name) names in
    sorted_names (
      spec.capabilities
      ++ transport_capability endpoint
      ++ added (has (text "battery_soc") || has (text "soc")) (text "battery_soc")
      ++ added (has (text "load_state")) (text "load_control")
      ++ added (any (starts_with (text "generator_")) names) (text "generator_control")
      ++ added (has (text "rts_temp")) (text "remote_temperature_sensor")
      ++ added (has (text "battery_sense_voltage")) (text "battery_voltage_sense"))

abbrev insert_entry {ℓ} : {A : Type ℓ} → Text → A → List (Text × A) → List (Text × A)
insert_entry k a [] = (k, a) ∷ []
insert_entry k a ((key, b) ∷ d) =
    let rest = insert_entry k a d in
    if text_eq k key
    then (k, a) ∷ d
    else if text_less k key
    then (k, a) ∷ (key, b) ∷ d
    else (key, b) ∷ rest

-- sorted(d.items()), from the oldest entry on
abbrev pub sorted_entries {ℓ} : {A : Type ℓ} → List (Text × A) → List (Text × A)
sorted_entries [] = []
sorted_entries ((k, a) ∷ d) = insert_entry k a (sorted_entries d)

abbrev pub is_error : Warning → Bool
is_error w = elim w.severity [ info ↦ false | warning ↦ false | error ↦ true ]

-- a or b, of texts
abbrev pub text_or : Text → Text → Text
text_or [] otherwise = otherwise
text_or (c ∷ s) otherwise = c ∷ s

abbrev has_components : List ℕ → Bool
has_components [] = false
has_components (n ∷ ns) = true

-- spec.firmware_verified_max and version_tuple(firmware), and the comparison
abbrev newer_than : Option Text → Text → Result Bool
newer_than none firmware = ok false
newer_than (some []) firmware = ok false
newer_than (some (c ∷ limit)) firmware = elim (has_components (version_tuple (written firmware))) [
  | false ↦ ok false
  | true ↦ compare_versions (written firmware) (written (c ∷ limit)) >>= λ z. ok (ltb_ℤ (pos 0) z)
]

unfoldable pub is_newer : DeviceProfileSpec → Text → Result Bool
is_newer spec firmware = newer_than spec.firmware_verified_max firmware

-- item.code not in dynamic_codes
abbrev pub is_static : EvidenceCode → Bool
is_static registers_decoded = false
is_static telemetry_plausibility = false
is_static _ = true

abbrev pub is_static_warning : WarningCode → Bool
is_static_warning (dynamic code) = false
is_static_warning _ = true

abbrev pub filter {ℓ} : {A : Type ℓ} → (A → Bool) → List A → List A
filter p [] = []
filter p (x ∷ xs) = let rest = filter p xs in if p x then x ∷ rest else rest

abbrev pub dynamic_warning : Validation.ValidationIssue → Warning
dynamic_warning i = record { code = dynamic i.code; severity = error }

module _ (F : Floats) where
  -- A decimal fraction with two places
  abbrev pub hundredth : ℕ → F.Real
  hundredth n = F.divide (F.of_ℕ n) (F.of_ℕ 100)

  abbrev absolute : F.Real → F.Real
  absolute x = if F.less x (F.of_ℕ 0) then F.subtract (F.of_ℕ 0) x else x

  abbrev passed_weights : List (IntelligenceEvidence F.Real) → List F.Real
  passed_weights [] = []
  passed_weights (e ∷ evidence) =
      let rest = passed_weights evidence in if e.passed then e.weight ∷ rest else rest

  abbrev failed_weights : List (IntelligenceEvidence F.Real) → List F.Real
  failed_weights [] = []
  failed_weights (e ∷ evidence) =
      let rest = failed_weights evidence in if e.passed then rest else absolute e.weight ∷ rest

  -- min(a, b) and max(a, b)
  abbrev pub smaller : F.Real → F.Real → F.Real
  smaller a b = if F.less b a then b else a

  abbrev pub greater : F.Real → F.Real → F.Real
  greater a b = if F.less a b then b else a

  unfoldable pub score : List (IntelligenceEvidence F.Real) → F.Real
  score evidence = greater (F.of_ℕ 0) (
      smaller (F.of_ℕ 1)
        (F.subtract (sum F (passed_weights evidence)) (sum F (failed_weights evidence))))

  -- x >= y
  abbrev at_least : F.Real → F.Real → Bool
  at_least x y = F.less y x || F.equal x y

  abbrev by_confidence : Bool → F.Real → IntelligenceStatus
  by_confidence true confidence = newer_firmware_unverified
  by_confidence false confidence =
      if at_least confidence (hundredth 85)
      then verified
      else if at_least confidence (hundredth 60)
      then probable
      else family_only

  -- _status
  unfoldable pub status_of :
      DeviceProfileSpec → F.Real → Text → List Warning → Result IntelligenceStatus
  unfolding is_newer
  status_of spec confidence firmware warnings =
      let judged = is_newer spec firmware >>= λ newer. ok (by_confidence newer confidence) in
      if text_eq spec.name (text "generic")
      then ok generic
      else if any is_error warnings
      then ok invalid
      else judged

  abbrev evidence_with : EvidenceCode → ℕ → IntelligenceEvidence F.Real
  evidence_with code weight = record { code = code; weight = hundredth weight; passed = true }

  abbrev pub checked_evidence : Evidence → IntelligenceEvidence F.Real
  checked_evidence named_registers = evidence_with registers_decoded 8
  checked_evidence (checks_failed n) = record {
    code = telemetry_plausibility;
    weight = hundredth 30;
    passed = false;
  }
  checked_evidence plausible = evidence_with telemetry_plausibility 12

  module _ (R : RegisterFloats F) (is_finite : F.Real → Bool) (show_float : F.Real → Text) where
    abbrev decoded_value : Value F.Real → Decoded F.Real
    decoded_value (real x) = if is_finite x then finite x else not_finite
    decoded_value (integer z) = whole (R.of_ℤ z)
    decoded_value (string s) = other

    abbrev unit_or_none : Option Text → Text
    unit_or_none none = []
    unit_or_none (some unit) = unit

    abbrev pub checked_value : RegisterValue F.Real → Validation.RegisterValue F.Real
    checked_value v = record {
      name = v.name;
      unit = unit_or_none v.unit;
      value = decoded_value v.value;
    }

    -- The new evidence and warnings of a poll.
    abbrev pub checks :
        List (RegisterValue F.Real) → List (IntelligenceEvidence F.Real) × List Warning
    checks values =
        let (evidence, issues) = validate_values F (map checked_value values) in
        (map checked_evidence evidence, map dynamic_warning issues)

    abbrev pub refreshed_with :
        DeviceIntelligence F.Real
        → List Text
        → List (IntelligenceEvidence F.Real)
        → List Warning
        → IntelligenceStatus
        → DeviceIntelligence F.Real
    refreshed_with i capabilities evidence warnings status = record i {
      confidence = score evidence;
      status = status;
      capabilities = capabilities;
      evidence = evidence;
      warnings = warnings;
    }

    unfoldable pub refresh_intelligence :
        DeviceIntelligence F.Real
        → List (RegisterValue F.Real)
        → Option Endpoint
        → Result (DeviceIntelligence F.Real)
    unfolding score status_of negotiate_capabilities get_profile validate_values
    refresh_intelligence i values endpoint =
        let spec = get_profile i.profile in
        let (new_evidence, issues) = checks values in
        let evidence =
          filter (λ e. is_static (IntelligenceEvidence.code e)) i.evidence ++ new_evidence in
        let warnings = filter (λ w. is_static_warning (Warning.code w)) i.warnings ++ issues in
        let capabilities =
          negotiate_capabilities spec endpoint (map (λ v. RegisterValue.name v) values) in
        status_of spec (score evidence) i.firmware warnings >>= λ status.
        ok (refreshed_with i capabilities evidence warnings status)

    -- _metadata_dict
    abbrev pub metadata_dict :
        List (Text × Value F.Real) → List (RegisterValue F.Real) → List (Text × Value F.Real)
    metadata_dict d [] = d
    metadata_dict d (v ∷ values) =
        metadata_dict (if is_named v.name then put v.name v.value d else d) values

    abbrev shown : Value F.Real → Text
    shown (real x) = show_float x
    shown (integer z) = show_integer z
    shown (string s) = s

    -- str(value), or nothing for a missing value, "" and "NONE"
    abbrev given : Option (Value F.Real) → Text
    given none = []
    given (some (string s)) = if text_eq s (text "NONE") then [] else s
    given (some v) = shown v

    -- _first
    abbrev pub first_given : List (Text × Value F.Real) → List Text → Text
    first_given d [] = []
    first_given d (name ∷ names) = text_or (given (lookup name d)) (first_given d names)

    module _ (C : ReadOnlyModbusClient) where
      abbrev when : Bool → EvidenceCode → ℕ → List (IntelligenceEvidence F.Real)
      when test code weight = if test then evidence_with code weight ∷ [] else []

      abbrev is_given : Text → Bool
      is_given [] = false
      is_given (c ∷ s) = true

      abbrev is_nonempty : List (RegisterValue F.Real) → Bool
      is_nonempty [] = false
      is_nonempty (v ∷ values) = true

      -- The metadata that could be read, with the warning if it could not.
      abbrev read_or_warn :
          Result (List (RegisterValue F.Real)) × Profile C
          → (List (RegisterValue F.Real) × List Warning) × C.State
      read_or_warn (ok values, p) = ((values, []), p.client)
      read_or_warn (err e, p) =
          (([], record { code = metadata_unavailable; severity = info } ∷ []), p.client)

      abbrev profile_metadata :
          DeviceProfileSpec → C.State → (List (RegisterValue F.Real) × List Warning) × C.State
      profile_metadata spec s =
          if text_eq spec.name (text "generic")
          then (([], []), s)
          else read_or_warn
              (read_metadata F R C spec record { metadata = []; cached_blocks = []; client = s })

      -- The evidence of how the profile was found.
      abbrev selection_evidence :
          DeviceIdentification → DeviceProfileSpec → List (IntelligenceEvidence F.Real)
      selection_evidence identity spec =
          let known = not (text_eq spec.name (text "generic")) in
          let selected = select_spec identity.vendor_name identity.product_code in
          let same = text_eq selected.name spec.name in
          when (contains (text "morningstar") (map casefold identity.vendor_name)) vendor_matched 28
          ++ (if same && known
              then evidence_with product_code_matched 32 ∷ []
              else when known fingerprint_matched 22)

      abbrev newer_warning : Bool → List Warning
      newer_warning newer =
          if newer then record { code = newer_firmware; severity = warning } ∷ [] else []

      -- Everything after the reads.
      abbrev pub intelligence_of :
          DeviceIdentification
          → Option Endpoint
          → DeviceProfileSpec
          → List (RegisterValue F.Real)
          → List Warning
          → Result (DeviceIntelligence F.Real)
      intelligence_of identity endpoint spec values unavailable = do
        let d = metadata_dict [] values
        let revision =
            text_or
              (first_given d
                (text "firmware_version" ∷ text "firmware" ∷ text "software_version" ∷ []))
              identity.major_minor_revision
        let number = first_given d (text "serial_number" ∷ text "serial" ∷ [])
        let evidence =
            selection_evidence identity spec
            ++ when (is_nonempty values) metadata_decoded 18
            ++ when (is_given revision) firmware_resolved 8
            ++ when (is_given number) serial_resolved 6
        let confidence = score evidence
        newer ← is_newer spec revision
        let warnings = unavailable ++ newer_warning newer
        status ← status_of spec confidence revision warnings
        ok record {
          profile = spec.name;
          family = spec.family;
          model =
              text_or (first_given d (text "model" ∷ text "model_name" ∷ text "model_flag" ∷ []))
                identity.product_code;
          serial_number = number;
          firmware = revision;
          hardware_revision =
              first_given d
                (text "hardware_version" ∷ text "hardware_revision" ∷ text "fpga_version" ∷ []);
          catalog_revision = text_or spec.catalog_revision spec.source_id;
          confidence = confidence;
          status = status;
          capabilities =
              negotiate_capabilities spec endpoint (map (λ v. RegisterValue.name v) values);
          evidence = evidence;
          warnings = warnings;
          metadata = sorted_entries d;
        }

      abbrev resolve_with :
          DeviceIdentification
          → Option Endpoint
          → Result DeviceProfileSpec × C.State
          → Result (DeviceIntelligence F.Real) × C.State
      resolve_with identity endpoint (err e, s) = (err e, s)
      resolve_with identity endpoint (ok spec, s) =
          let ((values, unavailable), s') = profile_metadata spec s in
          (intelligence_of identity endpoint spec values unavailable, s')

      unfoldable pub resolve_device_intelligence :
          DeviceIdentification → Option Endpoint → Action C.State (DeviceIntelligence F.Real)
      unfolding score status_of is_newer negotiate_capabilities detect_profile read_metadata
          select_spec
      resolve_device_intelligence identity endpoint s =
          resolve_with identity endpoint
            (detect_profile F C identity.vendor_name identity.product_code s)
