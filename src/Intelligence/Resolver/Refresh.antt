-- ===== src/Intelligence/Resolver/Refresh.antt =====
-- Refreshing the intelligence of a device (src/morningstar_modbus/intelligence/resolver.py).
use morningstar_modbus_api.Prelude.{
  ◌≡◌, refl, ap, ◌∙◌, sym, subst, inl, inr, Bool, false, Option, List, [], ◌∷◌, ◌++◌, map,
  Bool-cases, if◌then◌else◌,
}
use morningstar_modbus_api.Prelude.Text.{Text}
use morningstar_modbus_api.Prelude.Floats.{Floats}
use morningstar_modbus_api.Errors.{ok, >>=-eq-ok, ok-injective, ◌>>=◌}
use morningstar_modbus_api.Catalog.Decode.{RegisterFloats}
use morningstar_modbus_api.Catalog.Derived.{RegisterValue}
use morningstar_modbus_api.Catalog.Registry.{get_profile}
use morningstar_modbus_api.Intelligence.Validation.{
  Evidence, named_registers, checks_failed, plausible, validate_values,
}
use morningstar_modbus_api.Intelligence.Resolver.{
  DeviceIntelligence, IntelligenceEvidence, Warning, filter, is_static, is_static_warning,
  checked_evidence, dynamic_warning, checks, checked_value, refreshed_with, score, status_of,
  negotiate_capabilities, refresh_intelligence,
}
use morningstar_modbus_api.Runtime.Endpoints.{Endpoint}

module _ {A B : Type 0} (p : A → Bool) (f : B → A) (never : (b : B) → p (f b) ≡ false) where
  filter-new : (bs : List B) → filter p (map f bs) ≡ []
  filter-new [] = refl
  filter-new (b ∷ bs) =
      ap (λ t. if t then f b ∷ filter p (map f bs) else filter p (map f bs)) (never b)
      ∙ filter-new bs

  -- What is kept and then joined by new items is kept again, without the new ones.
  filter-kept : (xs : List A) (bs : List B) → filter p (filter p xs ++ map f bs) ≡ filter p xs
  filter-kept [] bs = filter-new bs
  filter-kept (x ∷ xs) bs = elim (Bool-cases (p x)) [
    | inl e ↦
        let kept = filter p xs in
        ap (λ t. filter p ((if t then x ∷ kept else kept) ++ map f bs)) e
        ∙ ap (λ t. if t then x ∷ filter p (kept ++ map f bs) else filter p (kept ++ map f bs)) e
        ∙ ap (λ r. x ∷ r) (filter-kept xs bs)
        ∙ sym (ap (λ t. if t then x ∷ kept else kept) e)
    | inr e ↦
        let kept = filter p xs in
        ap (λ t. filter p ((if t then x ∷ kept else kept) ++ map f bs)) e
        ∙ filter-kept xs bs
        ∙ sym (ap (λ t. if t then x ∷ kept else kept) e)
  ]

module _ (F : Floats) (R : RegisterFloats F) (is_finite : F.Real → Bool)
    (show_float : F.Real → Text) where
  never_static :
      (e : Evidence) → is_static (IntelligenceEvidence.code (checked_evidence F e)) ≡ false
  never_static named_registers = refl
  never_static (checks_failed n) = refl
  never_static plausible = refl

  -- A refresh with the values of a poll that was already taken into account changes nothing: evidence
  -- and warnings of the checks replace each other and do not add up over the polls.
  pub refresh_intelligence-twice :
      (i i' : DeviceIntelligence F.Real) (values : List (RegisterValue F.Real))
      (endpoint : Option Endpoint)
      → refresh_intelligence F R is_finite show_float i values endpoint ≡ ok i'
      → refresh_intelligence F R is_finite show_float i' values endpoint ≡ ok i'
  unfolding refresh_intelligence
  refresh_intelligence-twice i i' values endpoint h =
      let spec = get_profile i.profile in
      let (new_evidence, issues) = checks F R is_finite show_float values in
      let kept = filter (λ e. is_static (IntelligenceEvidence.code e)) i.evidence in
      let kept_warnings = filter (λ w. is_static_warning (Warning.code w)) i.warnings in
      let evidence = kept ++ new_evidence in
      let warnings = kept_warnings ++ issues in
      let capabilities =
        negotiate_capabilities spec endpoint (map (λ v. RegisterValue.name v) values) in
      let next = λ (ev : List (IntelligenceEvidence F.Real)) (ws : List Warning).
        status_of F spec (score F ev) i.firmware ws in
      let (status, judged, same) =
        >>=-eq-ok (next evidence warnings)
          (λ status.
            ok (refreshed_with F R is_finite show_float i capabilities evidence warnings status))
          h in
      let j = refreshed_with F R is_finite show_float i capabilities evidence warnings status in
      let found : j ≡ i' = ok-injective j i' same in
      let still =
        filter-kept (λ e. is_static (IntelligenceEvidence.code e)) (checked_evidence F) never_static
          i.evidence (validate_values F (map (checked_value F R is_finite show_float) values)).0 in
      let still_warnings =
        filter-kept (λ w. is_static_warning (Warning.code w)) dynamic_warning (λ b. refl) i.warnings
          (validate_values F (map (checked_value F R is_finite show_float) values)).1 in
      let again : refresh_intelligence F R is_finite show_float j values endpoint ≡ ok j =
        ap
          (λ k.
            next (k ++ new_evidence)
              (filter (λ w. is_static_warning (Warning.code w)) warnings ++ issues)
            >>= λ s. ok (
                refreshed_with F R is_finite show_float j capabilities (k ++ new_evidence)
                  (filter (λ w. is_static_warning (Warning.code w)) warnings ++ issues) s))
          still
        ∙ ap
            (λ k. next evidence (k ++ issues) >>= λ s.
              ok (refreshed_with F R is_finite show_float j capabilities evidence (k ++ issues) s))
            still_warnings
        ∙ ap
            (λ m. m >>= λ s.
              ok (refreshed_with F R is_finite show_float j capabilities evidence warnings s))
            judged in
      subst (λ k. refresh_intelligence F R is_finite show_float k values endpoint ≡ ok k) found
        again
