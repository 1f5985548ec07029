-- ===== src/Intelligence/Validation/Issues.antt =====
-- What the plausibility checks report (src/morningstar_modbus/intelligence/validation.py).
use morningstar_modbus_api.Prelude.{
  ℕ, ◌+◌, ◌≡◌, ◌↔◌, refl, sym, ap, ◌∙◌, inl, inr, Bool, true, false, List, [], ◌∷◌, arith,
  Bool-cases, ◌==◌,
}
use morningstar_modbus_api.Prelude.Text.{Text}
use morningstar_modbus_api.Prelude.Floats.{Floats}
use morningstar_modbus_api.Intelligence.Validation.{
  Decoded, finite, not_finite, whole, other, RegisterValue, IssueCode, non_finite,
  implausible_value, ValidationIssue, Checked, ends_implausible, is_named, add_issue, one_if,
  is_implausible, report, check_number, check_decoded, check_value, check_values, named_of,
  evidence_of, validate_values,
}

add_issue_nonempty :
    (code : IssueCode) (name : Text) (issues : List ValidationIssue)
    → add_issue code name issues ≡ []
    → ⊥
add_issue_nonempty code name [] h = cc
add_issue_nonempty code name (i ∷ issues) h = cc

-- There are issues exactly if a value was counted as invalid.
abbrev Agrees : Checked → Type 0
Agrees s = (s.issues ≡ []) ↔ (s.invalid ≡ 0)

ends_implausible_nonempty :
    (issues : List ValidationIssue) → ends_implausible issues ≡ true → issues ≡ [] → ⊥
ends_implausible_nonempty [] e h = cc
ends_implausible_nonempty (i ∷ issues) e h = cc

module _ (F : Floats) where
  -- A number outside its envelope, or a float that is no number.
  abbrev pub is_bad_value : RegisterValue F.Real → Decoded F.Real → Bool
  is_bad_value v not_finite = true
  is_bad_value v (finite x) = is_implausible F v x
  is_bad_value v (whole x) = is_implausible F v x
  is_bad_value v other = false

  abbrev pub is_bad : RegisterValue F.Real → Bool
  is_bad v = is_bad_value v v.value

  abbrev pub count_bad : List (RegisterValue F.Real) → ℕ
  count_bad [] = 0
  count_bad (v ∷ vs) = one_if (is_bad v) + count_bad vs

  report-Agrees :
      (name : Text) (s : Checked)
      → (s.invalid ≡ 0 → s.issues ≡ [])
      → Agrees (report F name s) × ((report F name s).invalid ≡ s.invalid)
  report-Agrees name s h = elim (Bool-cases (s.invalid == 0)) [
    | inl e ↦
        let none_invalid : s.invalid ≡ 0 = ground arith in
        rw e ((λ q. none_invalid, λ q. h none_invalid), refl)
    | inr e ↦
        let some_invalid : s.invalid ≡ 0 → ⊥ = λ q. ground arith in
        elim (Bool-cases (ends_implausible s.issues)) [
          | inl g ↦ rw e (
              rw g (
                (
                  λ q. absurd (ends_implausible_nonempty s.issues g q),
                  λ q. absurd (some_invalid q),
                ),
                refl,
              ))
          | inr g ↦ rw e (
              rw g (
                (
                  λ q. absurd (add_issue_nonempty implausible_value name s.issues q),
                  λ q. absurd (some_invalid q),
                ),
                refl,
              ))
        ]
  ]

  check_number-Agrees :
      (v : RegisterValue F.Real) (x : F.Real) (s : Checked)
      → Agrees s
      → Agrees (check_number F v x s)
        × ((check_number F v x s).invalid ≡ s.invalid + one_if (is_implausible F v x))
  check_number-Agrees v x s h =
      report-Agrees v.name (record s { invalid = s.invalid + one_if (is_implausible F v x) })
        (λ q. h.1 (omega (arith, q)))

  check_decoded-Agrees :
      (v : RegisterValue F.Real) (d : Decoded F.Real) (s : Checked)
      → Agrees s
      → Agrees (check_decoded F v d s)
        × ((check_decoded F v d s).invalid ≡ s.invalid + one_if (is_bad_value v d))
  check_decoded-Agrees v not_finite s h = (
    (λ q. absurd (add_issue_nonempty non_finite v.name s.issues q), λ q. absurd (omega (arith, q))),
    refl,
  )
  check_decoded-Agrees v (finite x) s h = check_number-Agrees v x s h
  check_decoded-Agrees v (whole x) s h = check_number-Agrees v x s h
  check_decoded-Agrees v other s h = (h, omega arith)

  check_values-Agrees :
      (vs : List (RegisterValue F.Real)) (s : Checked)
      → Agrees s
      → Agrees (check_values F vs s) × ((check_values F vs s).invalid ≡ s.invalid + count_bad vs)
  unfolding check_values check_value
  check_values-Agrees [] s h = (h, omega arith)
  check_values-Agrees (v ∷ vs) s h =
      let (here, n) = check_decoded-Agrees v v.value s h in
      let (all, m) = check_values-Agrees vs (check_decoded F v v.value s) here in
      (all, omega (arith, n, m))

  -- The checks report an issue exactly if some named value is no finite number or lies outside
  -- the envelope of its unit, and the evidence counts those values, each of them once.
  pub validate_values_lem :
      (values : List (RegisterValue F.Real))
      → let bad = count_bad (named_of F values) in
        ((validate_values F values).0 ≡ evidence_of F (named_of F values) bad)
        × (((validate_values F values).1 ≡ []) ↔ (bad ≡ 0))
  unfolding validate_values
  validate_values_lem values =
      let named = named_of F values in
      let (agrees, n) =
        check_values-Agrees named (record { invalid = 0; issues = [] }) (λ q. refl, λ q. refl) in
      let same : (check_values F named (record { invalid = 0; issues = [] })).invalid
          ≡ count_bad named =
        omega (arith, n) in
      (ap (λ k. evidence_of F named k) same, (λ q. sym same ∙ agrees.0 q, λ q. agrees.1 (same ∙ q)))

  abbrev pub issue : IssueCode → Text → ValidationIssue
  issue code name = record { code = code; name = name }

  -- Of two named values, a float that is no finite number and after it a finite float within its
  -- envelope, both are reported, the second one as implausible.
  pub plausible_blamed :
      (v w : RegisterValue F.Real) (x : F.Real)
      → is_named v.name ≡ true
      → is_named w.name ≡ true
      → v.value ≡ not_finite
      → w.value ≡ finite x
      → is_implausible F w x ≡ false
      → (validate_values F (v ∷ w ∷ [])).1
        ≡ issue non_finite v.name ∷ issue implausible_value w.name ∷ []
  unfolding validate_values check_values check_value
  plausible_blamed v w x nv nw ev ew e = rw nv (rw nw (rw ev (rw ew (rw e refl))))
