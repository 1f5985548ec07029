-- ===== src/Catalog/Registry.antt =====
-- The choice of a profile of src/morningstar_modbus/catalog/registry.py: by the names that a device
-- gives itself, then by reads of a few registers. Of str.casefold only the letters A to Z are
-- modelled; a character from U+0080 on separates words.
pub mod Fits
pub mod Selects
pub mod Detects
mod Tests
use morningstar_modbus_api.Prelude.{
  ℕ, ◌+◌, Bool, true, false, not, Option, none, some, List, [], ◌∷◌, ◌++◌, ◌&&◌, ◌||◌, ltb, leb,
  ◌==◌, any, length, if◌then◌else◌,
}
use morningstar_modbus_api.Prelude.Text.{Text, text, text_eq, starts_with, strip}
use morningstar_modbus_api.Prelude.Floats.{Floats}
use morningstar_modbus_api.Errors.{Result, ok, err}
use morningstar_modbus_api.Actions.{Action, pure}
use morningstar_modbus_api.Catalog.Types.{holding, DeviceProfileSpec, holding_block, telemetry}
use morningstar_modbus_api.Catalog.Families.TristarPwm.{tristar_pwm}
use morningstar_modbus_api.Catalog.Families.TristarMppt.{tristar_mppt}
use morningstar_modbus_api.Catalog.Families.SunsaverMppt.{sunsaver_mppt}
use morningstar_modbus_api.Catalog.Families.ProstarPwm.{prostar_pwm}
use morningstar_modbus_api.Catalog.Families.ProstarMppt.{prostar_mppt}
use morningstar_modbus_api.Catalog.Families.TristarMppt600v.{tristar_mppt_600v}
use morningstar_modbus_api.Catalog.Families.SunsaverDuo.{sunsaver_duo}
use morningstar_modbus_api.Catalog.Families.SuresineClassic.{suresine_classic}
use morningstar_modbus_api.Catalog.Families.SuresineGen2.{suresine_gen2}
use morningstar_modbus_api.Catalog.Families.RelayDriver.{relay_driver}
use morningstar_modbus_api.Catalog.Families.Readyedge.{readyedge}
use morningstar_modbus_api.Catalog.Families.GenstarMpptSystemMetering.{enhanced_genstar_mppt}
use morningstar_modbus_api.Transports.Client.{ReadOnlyModbusClient}

abbrev pub generic : DeviceProfileSpec
generic = record {
  name = text "generic";
  family = text "Generic Modbus";
  aliases = [];
  source_id = [];
  blocks = holding_block 0x0000 16 telemetry true false ∷ [];
  registers = [];
  capabilities = text "rtu" ∷ text "modbus_tcp" ∷ [];
  detection_priority = 1000;
  catalog_revision = [];
  firmware_verified_max = none;
}

abbrev pub insert_by {ℓ} : {A : Type ℓ} → (A → A → Bool) → A → List A → List A
insert_by before x [] = x ∷ []
insert_by before x (y ∷ ys) =
    let rest = insert_by before x ys in if before y x then y ∷ rest else x ∷ y ∷ ys

-- sorted(items), with `before y x` where y has to stand ahead of an x that came first
abbrev pub sorted_by {ℓ} : {A : Type ℓ} → (A → A → Bool) → List A → List A
sorted_by before [] = []
sorted_by before (x ∷ xs) = insert_by before x (sorted_by before xs)

-- The profiles that the registry lists.
abbrev pub registered : List DeviceProfileSpec
registered =
    enhanced_genstar_mppt ∷ readyedge ∷ suresine_gen2 ∷ tristar_mppt_600v ∷ tristar_mppt
    ∷ tristar_pwm ∷ prostar_mppt ∷ prostar_pwm ∷ sunsaver_mppt ∷ sunsaver_duo ∷ suresine_classic
    ∷ relay_driver ∷ []

abbrev pub profiles : List DeviceProfileSpec
profiles =
    sorted_by
      (λ y x. ltb (DeviceProfileSpec.detection_priority y) (DeviceProfileSpec.detection_priority x))
      registered

abbrev pub casefold : ℕ → ℕ
casefold c = if leb 65 c && leb c 90 then c + 32 else c

abbrev is_alphanumeric : ℕ → Bool
is_alphanumeric c = (leb 97 c && leb c 122) || (leb 48 c && leb c 57)

abbrev separated : Bool → Text → Text
separated true rest = rest
separated false rest = 32 ∷ rest

-- re.sub(r"[^a-z0-9]+", " ", value.casefold()), in a run of other characters or not
abbrev spaced : Bool → Text → Text
spaced in_run [] = []
spaced in_run (c ∷ s) = elim (is_alphanumeric (casefold c)) [
  | true ↦ casefold c ∷ spaced false s
  | false ↦ separated in_run (spaced true s)
]

unfoldable pub normalize : Text → Text
normalize value = strip (spaced false value)

-- part in s
abbrev pub contains : Text → Text → Bool
contains part [] = starts_with part []
contains part (c ∷ s) = starts_with part (c ∷ s) || contains part s

abbrev pub is_empty : Text → Bool
is_empty [] = true
is_empty (c ∷ s) = false

unfoldable pub is_explicit_non_morningstar_vendor : Text → Bool
unfolding normalize
is_explicit_non_morningstar_vendor vendor_name =
    let vendor = normalize vendor_name in
    not (is_empty vendor) && not (contains (text "morningstar") vendor)

-- normalized and (normalized in identity or normalized == product)
unfoldable pub names : Text → Text → Text → Bool
unfolding normalize
names identity product alias =
    let normalized = normalize alias in
    not (is_empty normalized) && (contains normalized identity || text_eq normalized product)

abbrev pub longest_first : List Text → List Text
longest_first = sorted_by (λ y x. ltb (length x) (length y))

-- The loop over the profiles, whose inner loop returns at the first alias that fits.
abbrev pub first_named : Text → Text → List DeviceProfileSpec → DeviceProfileSpec
first_named identity product [] = generic
first_named identity product (spec ∷ specs) =
    let rest = first_named identity product specs in
    if any (names identity product) (longest_first spec.aliases) then spec else rest

unfoldable pub select_spec : Text → Text → DeviceProfileSpec
unfolding is_explicit_non_morningstar_vendor names normalize
select_spec vendor_name product_code =
    let found =
      first_named (normalize (vendor_name ++ text " " ++ product_code)) (normalize product_code)
        profiles in
    if is_explicit_non_morningstar_vendor vendor_name then generic else found

-- {spec.name: spec for spec in (*PROFILES, GENERIC)}.get(name, GENERIC)
abbrev pub by_name : Text → List DeviceProfileSpec → Option DeviceProfileSpec
by_name name [] = none
by_name name (spec ∷ specs) = elim (by_name name specs) [
  | some later ↦ some later
  | none ↦ if text_eq name spec.name then some spec else none
]

abbrev pub or_generic : Option DeviceProfileSpec → DeviceProfileSpec
or_generic none = generic
or_generic (some spec) = spec

unfoldable pub get_profile : Text → DeviceProfileSpec
get_profile name = or_generic (by_name name (profiles ++ generic ∷ []))

module _ (F : Floats) where
  -- low <= x <= high
  abbrev between : ℕ → F.Real → ℕ → Bool
  between low x high =
      (F.less (F.of_ℕ low) x || F.equal (F.of_ℕ low) x)
      && (F.less x (F.of_ℕ high) || F.equal x (F.of_ℕ high))

  abbrev scaled : ℕ → ℕ → F.Real
  scaled word divisor = F.multiply (F.of_ℕ word) (F.divide (F.of_ℕ 1) (F.of_ℕ divisor))

  abbrev pub is_suresine_gen2 : List ℕ → Bool
  is_suresine_gen2 (w0 ∷ w1 ∷ w2 ∷ w3 ∷ words) =
      between 100 (scaled w0 10) 3000
      && between 10 (scaled w1 100) 60
      && between 90 (scaled w2 10) 260
      && leb 45 w3
      && leb w3 65
  is_suresine_gen2 _ = false

  abbrev pub is_suresine_classic : List ℕ → Bool
  is_suresine_classic (volts ∷ frequency ∷ []) =
      leb 90 volts && leb volts 260 && leb 45 frequency && leb frequency 65
  is_suresine_classic _ = false

  abbrev pub is_sunsaver_duo : List ℕ → Bool
  is_sunsaver_duo (w0 ∷ w1 ∷ w2 ∷ w3 ∷ w4 ∷ words) =
      (w2 == 1 || w2 == 3 || w2 == 4) && leb w4 0x00FF
  is_sunsaver_duo _ = false

  abbrev pub is_tristar_pwm : List ℕ → Bool
  is_tristar_pwm (mode ∷ state ∷ []) = leb mode 3 && leb state 8
  is_tristar_pwm _ = false

  module _ (C : ReadOnlyModbusClient) where
    abbrev pub fits : (List ℕ → Bool) → Result (List ℕ) → Bool
    fits fingerprint (err e) = false
    fits fingerprint (ok words) = fingerprint words

    abbrev pub settled :
        Bool
        → DeviceProfileSpec
        → Action C.State DeviceProfileSpec
        → Action C.State DeviceProfileSpec
    settled true spec next = pure spec
    settled false spec next = next

    -- try: read; if the words fit: return the profile; except Exception: pass
    abbrev pub probe :
        ℕ
        → ℕ
        → (List ℕ → Bool)
        → DeviceProfileSpec
        → Action C.State DeviceProfileSpec
        → Action C.State DeviceProfileSpec
    probe address count fingerprint spec next s =
        let (words, s') = C.read holding address count s in
        settled (fits fingerprint words) spec next s'

    abbrev pub fingerprints : DeviceProfileSpec → Action C.State DeviceProfileSpec
    fingerprints selected = probe 0x0003 4 is_suresine_gen2 suresine_gen2 (
        probe 0x000D 2 is_suresine_classic suresine_classic (
          probe 0x0106 6 is_sunsaver_duo sunsaver_duo
            (probe 0x001A 2 is_tristar_pwm tristar_pwm (pure selected))))

    -- if selected.name != "generic": return selected, else probe unless the vendor is another
    abbrev pub detect_selected : DeviceProfileSpec → Bool → Action C.State DeviceProfileSpec
    detect_selected selected foreign =
        settled (not (text_eq selected.name (text "generic"))) selected
          (settled foreign selected (fingerprints selected))

    unfoldable pub detect_profile : Text → Text → Action C.State DeviceProfileSpec
    unfolding select_spec is_explicit_non_morningstar_vendor
    detect_profile vendor_name product_code =
        detect_selected (select_spec vendor_name product_code)
          (is_explicit_non_morningstar_vendor vendor_name)
