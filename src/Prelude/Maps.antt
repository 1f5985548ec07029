-- ===== src/Prelude/Maps.antt =====
-- A dict with str keys, as an association list: the first entry of a key counts.
use morningstar_modbus_api.Prelude.Tests.{if◌then◌else◌, Bool-cases}
use morningstar_modbus_api.Prelude.Text.{Text, text_eq, text_eq_sound, text_eq_refl}
use mathlib.Core.Path.{◌≡◌, refl, ◌∙◌, sym, ap}
use mathlib.Core.Logic.{inl, inr}
use mathlib.Core.Bool.{false}
use mathlib.Core.List.{List, [], ◌∷◌}
use mathlib.Core.Option.{Option, none, some}

module _ {ℓ} {V : Type ℓ} where
  -- d.get(key)
  abbrev pub lookup : Text → List (Text × V) → Option V
  lookup k [] = none
  lookup k ((key, v) ∷ d) = let rest = lookup k d in if text_eq k key then some v else rest

  -- d[key] = value
  abbrev pub put : Text → V → List (Text × V) → List (Text × V)
  put k v d = (k, v) ∷ d

  -- d.pop(key, None)
  abbrev pub remove : Text → List (Text × V) → List (Text × V)
  remove k [] = []
  remove k ((key, v) ∷ d) = let rest = remove k d in if text_eq k key then rest else (key, v) ∷ rest

  pub lookup-put_same : (k : Text) (v : V) (d : List (Text × V)) → lookup k (put k v d) ≡ some v
  lookup-put_same k v d = rw (text_eq_refl k) refl

  pub lookup-put_other :
      (k other : Text) (v : V) (d : List (Text × V))
      → text_eq k other ≡ false
      → lookup k (put other v d) ≡ lookup k d
  lookup-put_other k other v d h = rw h refl

  pub lookup-remove_same : (k : Text) (d : List (Text × V)) → lookup k (remove k d) ≡ none
  lookup-remove_same k [] = refl
  lookup-remove_same k ((key, v) ∷ d) = elim (Bool-cases (text_eq k key)) [
    | inl h ↦ rw h (lookup-remove_same k d)
    | inr h ↦ rw h (rw h (lookup-remove_same k d))
  ]

  pub lookup-remove_other :
      (k other : Text) (d : List (Text × V))
      → text_eq k other ≡ false
      → lookup k (remove other d) ≡ lookup k d
  lookup-remove_other k other [] h = refl
  lookup-remove_other k other ((key, v) ∷ d) h = elim (Bool-cases (text_eq other key)) [
    | inl e ↦
        let same : other ≡ key = text_eq_sound other key e in
        let apart : text_eq k key ≡ false = ap (λ t. text_eq k t) (sym same) ∙ h in
        rw e (rw apart (lookup-remove_other k other d h))
    | inr e ↦ elim (Bool-cases (text_eq k key)) [
      | inl g ↦ rw e (rw g refl)
      | inr g ↦ rw e (rw g (lookup-remove_other k other d h))
    ]
  ]
