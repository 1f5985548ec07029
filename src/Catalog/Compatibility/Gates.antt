-- ===== src/Catalog/Compatibility/Gates.antt =====
-- Which firmware a gate lets through (in_range of
-- src/morningstar_modbus/catalog/compatibility.py).
use morningstar_modbus_api.Prelude.{
  ℕ, ◌≡◌, ◌≢◌, ◌↔◌, refl, ap, ◌∙◌, inl, inr, Bool, true, false, not, Option, none, some, List, [],
  ◌∷◌, ◌&&◌, if◌then◌else◌,
}
use morningstar_modbus_api.Prelude.Text.{Text}
use morningstar_modbus_api.Prelude.Int.{ℤ, pos, ltb_ℤ}
use morningstar_modbus_api.Errors.{Result, ok, ◌>>=◌}
use morningstar_modbus_api.Catalog.Compatibility.{
  Firmware, written, version_tuple, compare_versions, compare_tuples, is_empty, is_none, too_old,
  too_new, unless, within, in_range,
}
use morningstar_modbus_api.Catalog.Compatibility.Order.{Precedes, IsSignOf, compare_versions_iff}

-- No gate, or one that is a version.
abbrev IsVersion : Option Text → Type 0
IsVersion none = Unit
IsVersion (some s) = version_tuple (written s) ≢ []

-- The value is not below the gate.
abbrev pub IsSince : Firmware → Option Text → Type 0
IsSince value none = Unit
IsSince value (some s) = Precedes (version_tuple value) (version_tuple (written s)) → ⊥

-- The value is not above the gate.
abbrev pub IsUntil : Firmware → Option Text → Type 0
IsUntil value none = Unit
IsUntil value (some s) = Precedes (version_tuple (written s)) (version_tuple value) → ⊥

compare_tuples_total : (a b : List ℕ) → a ≢ [] → b ≢ [] → (c : ℤ) × (compare_tuples a b ≡ ok c)
compare_tuples_total [] b h k = absurd (h refl)
compare_tuples_total (x ∷ a) [] h k = absurd (k refl)
compare_tuples_total (x ∷ a) (y ∷ b) h k = (_, refl)

compare_versions_total :
    (left right : Firmware)
    → version_tuple left ≢ []
    → version_tuple right ≢ []
    → (c : ℤ) × (compare_versions left right ≡ ok c)
unfolding compare_versions
compare_versions_total left right h k =
    compare_tuples_total (version_tuple left) (version_tuple right) h k

negative_iff : {L G : Type 0} (c : ℤ) → IsSignOf L G c → (ltb_ℤ c (pos 0) ≡ false) ↔ (L → ⊥)
negative_iff c s = elim s.2 [
  | inl e ↦ (λ h. cc, λ h. absurd (h (s.0.0 e)))
  | inr (inl e) ↦ (λ h l. cc (s.0.1 l), λ h. ap (λ t. ltb_ℤ t (pos 0)) e)
  | inr (inr e) ↦ (λ h l. cc (s.0.1 l), λ h. ap (λ t. ltb_ℤ t (pos 0)) e)
]

positive_iff : {L G : Type 0} (c : ℤ) → IsSignOf L G c → (ltb_ℤ (pos 0) c ≡ false) ↔ (G → ⊥)
positive_iff c s = elim s.2 [
  | inl e ↦ (λ h l. cc (s.1.1 l), λ h. ap (λ t. ltb_ℤ (pos 0) t) e)
  | inr (inl e) ↦ (λ h. cc, λ h. absurd (h (s.1.0 e)))
  | inr (inr e) ↦ (λ h l. cc (s.1.1 l), λ h. ap (λ t. ltb_ℤ (pos 0) t) e)
]

too_old_lem :
    (value : Firmware) (since : Option Text)
    → version_tuple value ≢ []
    → IsVersion since
    → (b : Bool) × (too_old value since ≡ ok b) × ((b ≡ false) ↔ IsSince value since)
too_old_lem value none h k = (false, refl, (λ e. tt, λ e. refl))
too_old_lem value (some s) h k =
    let (c, e) = compare_versions_total value (written s) h k in
    (ltb_ℤ c (pos 0), rw e refl, negative_iff c (compare_versions_iff value (written s) c e))

too_new_lem :
    (value : Firmware) (until : Option Text)
    → version_tuple value ≢ []
    → IsVersion until
    → (b : Bool) × (too_new value until ≡ ok b) × ((b ≡ false) ↔ IsUntil value until)
too_new_lem value none h k = (false, refl, (λ e. tt, λ e. refl))
too_new_lem value (some s) h k =
    let (c, e) = compare_versions_total value (written s) h k in
    (ltb_ℤ (pos 0) c, rw e refl, positive_iff c (compare_versions_iff value (written s) c e))

unless_lem :
    (old : Bool) (rest : Result Bool) {new : Bool} {S U : Type 0}
    → (old ≡ false) ↔ S
    → rest ≡ ok (not new)
    → (new ≡ false) ↔ U
    → (b : Bool) × (unless old rest ≡ ok b) × ((b ≡ true) ↔ (S × U))
unless_lem true rest s e u = (false, refl, (λ h. cc, λ h. cc (s.1 h.0)))
unless_lem false rest {new = true} s e u = (false, e, (λ h. cc, λ h. cc (u.1 h.1)))
unless_lem false rest {new = false} s e u = (true, e, (λ h. (s.0 refl, u.0 refl), λ h. refl))

-- Of a value with a version and of gates that are versions, in_range returns, and it is true
-- exactly if the value does not precede the lower gate and the upper gate does not precede the
-- value; a gate that is None lets every value through.
pub in_range_iff :
    (value : Firmware) (since until : Option Text)
    → version_tuple value ≢ []
    → IsVersion since
    → IsVersion until
    → (b : Bool) × (in_range value since until ≡ ok b)
      × ((b ≡ true) ↔ (IsSince value since × IsUntil value until))
unfolding in_range
in_range_iff value since until h k l =
    let (old, e, s) = too_old_lem value since h k in
    let (new, e', u) = too_new_lem value until h l in
    let rest : (too_new value until >>= λ t. ok (not t)) ≡ ok (not new) =
      ap (λ m. m >>= λ t. ok (not t)) e' in
    let (b, r, iff) = unless_lem old _ s rest u in
    let inside : within value since until ≡ ok b =
      ap (λ m. m >>= λ t. unless t (too_new value until >>= λ x. ok (not x))) e ∙ r in
    (
      b,
      ap (λ t. if t then ok (is_none since && is_none until) else within value since until)
            (not_empty (version_tuple value) h)
          ∙ inside,
      iff,
    )
  where
    not_empty : (a : List ℕ) → a ≢ [] → is_empty a ≡ false
    not_empty [] n = absurd (n refl)
    not_empty (x ∷ a) n = refl
