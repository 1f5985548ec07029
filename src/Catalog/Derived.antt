-- ===== src/Catalog/Derived.antt =====
-- The derived values of src/morningstar_modbus/catalog/derived.py, and RegisterValue of
-- src/morningstar_modbus/domain/models.py. f"{x:.2f}" of a float is a parameter.
use morningstar_modbus_api.Prelude.{
  ℕ, Bool, false, Option, none, some, List, [], ◌∷◌, ◌++◌, ◌||◌, if◌then◌else◌,
}
use morningstar_modbus_api.Prelude.Text.{Text, text, text_eq}
use morningstar_modbus_api.Prelude.Floats.{Floats}
use morningstar_modbus_api.Catalog.Types.{RegisterFunction, holding}
use morningstar_modbus_api.Catalog.Decode.{RegisterFloats, Value, real, integer, string}

pub record RegisterValue (Real : Type 0) : Type 0 where
  pub name : Text
  pub address : ℕ
  pub function : RegisterFunction
  pub raw : List ℕ
  pub value : Value Real
  pub unit : Option Text

module _ (F : Floats) (R : RegisterFloats F) where
  -- {value.name: value for value in named_values}.get(name): the last one counts.
  abbrev pub named : Text → List (RegisterValue F.Real) → Option (RegisterValue F.Real)
  named name [] = none
  named name (v ∷ values) = elim (named name values) [
    | none ↦ if text_eq name v.name then some v else none
    | some later ↦ some later
  ]

  -- candidate if candidate >= 0.0 else None
  abbrev pub not_negative : F.Real → Option F.Real
  not_negative x = if F.less (F.of_ℕ 0) x || F.equal (F.of_ℕ 0) x then some x else none

  abbrev pub number : Value F.Real → Option F.Real
  number (real x) = not_negative x
  number (integer z) = not_negative (R.of_ℤ z)
  number (string s) = none

  abbrev pub numeric : Option (RegisterValue F.Real) → Option F.Real
  numeric none = none
  numeric (some v) = number v.value

  abbrev product_of : Option F.Real → Option F.Real → Option F.Real × Text
  product_of none current = (none, text "unavailable")
  product_of (some voltage) none = (none, text "unavailable")
  product_of (some voltage) (some current) =
      (some (F.multiply voltage current), text "battery_voltage_x_charge_current")

  unfoldable pub battery_side_power : List (RegisterValue F.Real) → Option F.Real × Text
  battery_side_power values = elim (numeric (named (text "output_power") values)) [
    | some output_power ↦ (some output_power, text "controller_output_power")
    | none ↦
        product_of (numeric (named (text "battery_voltage") values))
          (numeric (named (text "battery_charge_current") values))
  ]

  -- max(a, b)
  abbrev larger : F.Real → F.Real → F.Real
  larger a b = if F.less a b then b else a

  abbrev half : F.Real
  half = F.divide (F.of_ℕ 1) (F.of_ℕ 2)

  unfoldable pub reported_input_is_suspect : F.Real → Option F.Real → Bool
  reported_input_is_suspect reported none = false
  reported_input_is_suspect reported (some output) =
      if F.less output (F.of_ℕ 25)
      then F.less (F.of_ℕ 250) reported
      else F.less (larger (F.multiply output (F.of_ℕ 2)) (F.add output (F.of_ℕ 250))) reported
        || F.less reported (F.multiply output half)

  -- The selected power with its source, its quality and its note.
  pub record Selection : Type 0 where
    pub selected : F.Real
    pub source : Text
    pub quality : Text
    pub note : Text

  abbrev pub controller_reported : F.Real → Selection
  controller_reported reported = record {
    selected = reported;
    source = text "controller_reported";
    quality = text "reported_unverified";
    note =
        text "Morningstar reports this input-power estimate from a non-precision array-current "
        ++ text "measurement; use input_power_reported for the unmodified controller value";
  }

  abbrev pub charge_output_proxy : (F.Real → Text) → F.Real → F.Real → Text → Selection
  charge_output_proxy show reported output output_source = record {
    selected = output;
    source = text "charge_output_proxy";
    quality = text "estimated_from_output";
    note =
        text "controller-reported input power "
        ++ show reported
        ++ text " W is inconsistent with "
        ++ text "battery-side power "
        ++ show output
        ++ text " W ("
        ++ output_source
        ++ text "); using the "
        ++ text "battery-side value as a conservative operational proxy";
  }

  -- if suspect and output_reference is not None
  unfoldable pub select : (F.Real → Text) → F.Real → Option F.Real × Text → Selection
  unfolding reported_input_is_suspect
  select show reported (none, output_source) = controller_reported reported
  select show reported (some output, output_source) =
      if reported_input_is_suspect reported (some output)
      then charge_output_proxy show reported output output_source
      else controller_reported reported

  abbrev pub derived_value : Text → List ℕ → Value F.Real → Option Text → RegisterValue F.Real
  derived_value name raw value unit = record {
    name = name;
    address = 0x003B;
    function = holding;
    raw = raw;
    value = value;
    unit = unit;
  }

  abbrev pub input_power : List ℕ → Selection → List (RegisterValue F.Real)
  input_power raw s =
      derived_value (text "input_power") raw (real s.selected) (some (text "W"))
      ∷ derived_value (text "input_power_source") raw (string s.source) none
      ∷ derived_value (text "input_power_quality") raw (string s.quality) none
      ∷ derived_value (text "input_power_note") raw (string s.note) none
      ∷ []

  abbrev reconcile :
      (F.Real → Text)
      → List (RegisterValue F.Real)
      → Option (RegisterValue F.Real)
      → Option F.Real
      → List (RegisterValue F.Real)
  reconcile show values none reported = []
  reconcile show values (some register) none = []
  reconcile show values (some register) (some reported) =
      input_power register.raw (select show reported (battery_side_power values))

  unfoldable pub derive_register_values :
      (F.Real → Text) → Text → List (RegisterValue F.Real) → List (RegisterValue F.Real)
  unfolding select battery_side_power
  derive_register_values show profile_name values =
      let register = named (text "input_power_reported") values in
      let derived = reconcile show values register (numeric register) in
      if text_eq profile_name (text "tristar_mppt") then derived else []
