-- ===== src/Intelligence/Validation.antt =====
-- The plausibility checks of src/morningstar_modbus/intelligence/validation.py.
pub mod Issues
mod Tests
use morningstar_modbus_api.Prelude.{
  ℕ, zero, suc, ◌+◌, ◌-◌, ◌≡◌, Bool, true, false, not, Option, none, some, List, [], ◌∷◌, ◌++◌,
  ◌&&◌, ◌||◌, ◌==◌, if◌then◌else◌,
}
use morningstar_modbus_api.Prelude.Text.{Text, text, text_eq, starts_with}
use morningstar_modbus_api.Prelude.Floats.{Floats}

-- A decoded value: a float that is finite or not, an int, or a str or a bool.
pub data Decoded (R : Type 0) : Type 0 where
  finite : R → Decoded R
  not_finite : Decoded R
  whole : R → Decoded R
  other : Decoded R

-- What the checks read of a RegisterValue.
pub record RegisterValue (R : Type 0) : Type 0 where
  pub name : Text
  pub unit : Text
  pub value : Decoded R

pub data IssueCode : Type 0 where
  non_finite implausible_value : IssueCode

-- Every issue of these checks is an error; its message names the value.
pub record ValidationIssue : Type 0 where
  pub code : IssueCode
  pub name : Text

-- Of weight 0.08, 0.30 and not passed, and 0.12.
pub data Evidence : Type 0 where
  named_registers : Evidence
  checks_failed : ℕ → Evidence
  plausible : Evidence

pub record Checked : Type 0 where
  pub invalid : ℕ
  pub issues : List ValidationIssue

abbrev is_implausible_code : IssueCode → Bool
is_implausible_code non_finite = false
is_implausible_code implausible_value = true

-- issues[-1].code == "implausible-value", if there are issues
abbrev ends_implausible : List ValidationIssue → Bool
ends_implausible [] = false
ends_implausible (i ∷ []) = is_implausible_code i.code
ends_implausible (i ∷ j ∷ rest) = ends_implausible (j ∷ rest)

-- not name.startswith(("holding_0x", "input_0x"))
abbrev pub is_named : Text → Bool
is_named name = not (starts_with (text "holding_0x") name || starts_with (text "input_0x") name)

abbrev add_issue : IssueCode → Text → List ValidationIssue → List ValidationIssue
add_issue code name issues = issues ++ record { code = code; name = name } ∷ []

abbrev pub one_if : Bool → ℕ
one_if true = 1
one_if false = 0

module _ (F : Floats) where
  abbrev minus : ℕ → F.Real
  minus n = F.subtract (F.of_ℕ 0) (F.of_ℕ n)

  -- `not low <= x <= high`
  abbrev outside : F.Real → F.Real → F.Real → Bool
  outside low high x = F.less x low || F.less high x

  abbrev has_unit : RegisterValue F.Real → Text → Bool
  has_unit v unit = text_eq v.unit unit

  -- The chain of `if` and `elif`; a unit meets one of the tests at most.
  unfoldable pub is_implausible : RegisterValue F.Real → F.Real → Bool
  is_implausible v x =
      (has_unit v (text "V") && outside (minus 1) (F.of_ℕ 1000) x)
      || (has_unit v (text "A") && outside (minus 1000) (F.of_ℕ 1000) x)
      || (has_unit v (text "C") && outside (minus 80) (F.of_ℕ 180) x)
      || (has_unit v (text "%") && outside (minus 1) (F.of_ℕ 101) x)
      || (has_unit v (text "Hz") && outside (F.of_ℕ 0) (F.of_ℕ 1000) x)

  -- `if invalid and (not issues or issues[-1].code != "implausible-value")`
  abbrev pub report : Text → Checked → Checked
  report name s =
      if not (s.invalid == 0) && not (ends_implausible s.issues)
      then record s { issues = add_issue implausible_value name s.issues }
      else s

  abbrev pub check_number : RegisterValue F.Real → F.Real → Checked → Checked
  check_number v x s =
      report v.name (record s { invalid = s.invalid + one_if (is_implausible v x) })

  abbrev check_decoded : RegisterValue F.Real → Decoded F.Real → Checked → Checked
  check_decoded v not_finite s = record {
    invalid = s.invalid + 1;
    issues = add_issue non_finite v.name s.issues;
  }
  check_decoded v (finite x) s = check_number v x s
  check_decoded v (whole x) s = check_number v x s
  check_decoded v other s = s

  -- One turn of the loop.
  unfoldable pub check_value : RegisterValue F.Real → Checked → Checked
  unfolding is_implausible
  check_value v s = check_decoded v v.value s

  unfoldable pub check_values : List (RegisterValue F.Real) → Checked → Checked
  check_values [] s = s
  check_values (v ∷ vs) s = check_values vs (check_value v s)

  abbrev named_of : List (RegisterValue F.Real) → List (RegisterValue F.Real)
  named_of [] = []
  named_of (v ∷ vs) = let rest = named_of vs in if is_named v.name then v ∷ rest else rest

  abbrev evidence_of : List (RegisterValue F.Real) → ℕ → List Evidence
  evidence_of [] zero = []
  evidence_of [] (suc n) = checks_failed (suc n) ∷ []
  evidence_of (v ∷ named) zero = named_registers ∷ plausible ∷ []
  evidence_of (v ∷ named) (suc n) = named_registers ∷ checks_failed (suc n) ∷ []

  unfoldable pub validate_values :
      List (RegisterValue F.Real) → List Evidence × List ValidationIssue
  unfolding check_values
  validate_values values =
      let named = named_of values in
      let checked = check_values named (record { invalid = 0; issues = [] }) in
      (evidence_of named checked.invalid, checked.issues)
