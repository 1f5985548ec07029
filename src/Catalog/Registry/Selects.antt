-- ===== src/Catalog/Registry/Selects.antt =====
-- The profile that the names of a device select (src/morningstar_modbus/catalog/registry.py).
use morningstar_modbus_api.Prelude.{
  ℕ, ◌≤◌, ◌≡◌, ◌≢◌, ◌⊎◌, ◌&&◌, not, ◌↔◌, refl, sym, ap, subst, ◌∙◌, inl, inr, Bool, true, false,
  List, [], ◌∷◌, ◌++◌, ◌||◌, any, All, ltb, length, arith, Bool-cases, if◌then◌else◌,
}
use morningstar_modbus_api.Prelude.Text.{Text, text}
use morningstar_modbus_api.Catalog.Types.{DeviceProfileSpec}
use morningstar_modbus_api.Catalog.Registry.{
  generic, registered, profiles, sorted_by, insert_by, longest_first, names, normalize, first_named,
  is_explicit_non_morningstar_vendor, select_spec, contains,
}
use morningstar_modbus_api.Catalog.Registry.Fits.{
  Member, here, there, Fits, any_iff, names_iff, Occurs, contains_iff, is_empty-cases,
}

or_swap : (a b c : Bool) → (a || (b || c)) ≡ (b || (a || c))
or_swap a b c = ground arith

module _ {ℓ} {A : Type ℓ} (before : A → A → Bool) (p : A → Bool) where
  any-insert_by : (x : A) (xs : List A) → any p (insert_by before x xs) ≡ (p x || any p xs)
  any-insert_by x [] = refl
  any-insert_by x (y ∷ ys) = elim (Bool-cases (before y x)) [
    | inl e ↦
        ap (λ t. any p (if t then y ∷ insert_by before x ys else x ∷ y ∷ ys)) e
        ∙ ap (λ t. p y || t) (any-insert_by x ys)
        ∙ or_swap (p y) (p x) (any p ys)
    | inr e ↦ ap (λ t. any p (if t then y ∷ insert_by before x ys else x ∷ y ∷ ys)) e
  ]

  any-sorted_by : (xs : List A) → any p (sorted_by before xs) ≡ any p xs
  any-sorted_by [] = refl
  any-sorted_by (x ∷ xs) =
      any-insert_by x (sorted_by before xs) ∙ ap (λ t. p x || t) (any-sorted_by xs)

module _ {A : Type 0} (before : A → A → Bool) (P : A → Type 0) where
  insert_by-All : (x : A) (xs : List A) → All P (insert_by before x xs) ↔ (P x × All P xs)
  insert_by-All x [] = (λ h. h, λ h. h)
  insert_by-All x (y ∷ ys) = elim (Bool-cases (before y x)) [
    | inl e ↦ rw e (
      λ h. let (hx, hys) = (insert_by-All x ys).0 h.1 in (hx, (h.0, hys)),
      λ h. (h.1.0, (insert_by-All x ys).1 (h.0, h.1.1)),
    )
    | inr e ↦ rw e (λ h. h, λ h. h)
  ]

  sorted_by-All : (xs : List A) → All P (sorted_by before xs) ↔ All P xs
  sorted_by-All [] = (λ h. h, λ h. h)
  sorted_by-All (x ∷ xs) = (
    λ h.
        let (hx, hs) = (insert_by-All x (sorted_by before xs)).0 h in (hx, (sorted_by-All xs).0 hs),
    λ h. (insert_by-All x (sorted_by before xs)).1 (h.0, (sorted_by-All xs).1 h.1),
  )

abbrev priority : DeviceProfileSpec → ℕ
priority spec = spec.detection_priority

abbrev earlier : DeviceProfileSpec → DeviceProfileSpec → Bool
earlier y x = ltb (priority y) (priority x)

-- Each profile has the least priority of those that follow it.
abbrev IsOrdered : List DeviceProfileSpec → Type 0
IsOrdered [] = Unit
IsOrdered (x ∷ xs) = All (λ y. priority x ≤ priority y) xs × IsOrdered xs

module _ {A : Type 0} where
  All-map : (P Q : A → Type 0) → ((x : A) → P x → Q x) → (xs : List A) → All P xs → All Q xs
  All-map P Q f [] h = tt
  All-map P Q f (x ∷ xs) h = (f x h.0, All-map P Q f xs h.1)

  member_of_all : (P : A → Type 0) {x : A} {xs : List A} → Member x xs → All P xs → P x
  member_of_all P (here xs) h = h.0
  member_of_all P (there y xs m) h = member_of_all P m h.1

  all_members : (xs : List A) → All (λ x. Member x xs) xs
  all_members [] = tt
  all_members (x ∷ xs) = (
    here xs,
    All-map (λ y. Member y xs) (λ y. Member y (x ∷ xs)) (λ y m. there x xs m) xs (all_members xs),
  )

insert_by-IsOrdered :
    (x : DeviceProfileSpec) (xs : List DeviceProfileSpec)
    → IsOrdered xs
    → IsOrdered (insert_by earlier x xs)
insert_by-IsOrdered x [] h = (tt, tt)
insert_by-IsOrdered x (y ∷ ys) h = elim (Bool-cases (earlier y x)) [
  | inl e ↦
      let low : priority y ≤ priority x = ground arith in
      rw e (
        (insert_by-All earlier (λ z. priority y ≤ priority z) x ys).1 (low, h.0),
        insert_by-IsOrdered x ys h.1,
      )
  | inr e ↦
      let low : priority x ≤ priority y = ground arith in
      rw e (
        (
          low,
          All-map (λ z. priority y ≤ priority z) (λ z. priority x ≤ priority z) (λ z k. omega arith)
              ys h.0,
        ),
        h,
      )
]

sorted_by-IsOrdered : (xs : List DeviceProfileSpec) → IsOrdered (sorted_by earlier xs)
sorted_by-IsOrdered [] = tt
sorted_by-IsOrdered (x ∷ xs) = insert_by-IsOrdered x (sorted_by earlier xs) (sorted_by-IsOrdered xs)

module _ (identity product : Text) where
  -- Some alias of the profile fits.
  abbrev HasFit : DeviceProfileSpec → Type 0
  HasFit spec = (alias : Text) × Member alias spec.aliases × Fits identity product alias

  abbrev is_fitting : DeviceProfileSpec → Bool
  is_fitting spec = any (names identity product) (longest_first spec.aliases)

  fitting_iff : (spec : DeviceProfileSpec) → (is_fitting spec ≡ true) ↔ HasFit spec
  fitting_iff spec =
      let same : is_fitting spec ≡ any (names identity product) spec.aliases =
        any-sorted_by (λ y x. ltb (length x) (length y)) (names identity product) spec.aliases in
      (
        λ h.
            let (alias, m, fits) =
              (any_iff (names identity product) spec.aliases).0 (sym same ∙ h) in
            (alias, m, (names_iff identity product alias).0 fits),
        λ (alias, m, fits).
            same
            ∙ (any_iff (names identity product) spec.aliases).1
                (alias, m, (names_iff identity product alias).1 fits),
      )

  not_fitting : (spec : DeviceProfileSpec) → is_fitting spec ≡ false → ¬ HasFit spec
  not_fitting spec e h = let fits = (fitting_iff spec).1 h in cc

  -- What is chosen among the profiles: the generic one if none has an alias that fits, or else one
  -- that has, of the least priority.
  abbrev pub IsChoice : List DeviceProfileSpec → DeviceProfileSpec → Type 0
  IsChoice specs chosen =
      ((chosen ≡ generic) × All (λ spec. ¬ HasFit spec) specs)
      ⊎ (Member chosen specs
          × HasFit chosen
          × All (λ spec. HasFit spec → priority chosen ≤ priority spec) specs)

  first_named-IsChoice :
      (specs : List DeviceProfileSpec)
      → IsOrdered specs
      → IsChoice specs (first_named identity product specs)
  first_named-IsChoice [] h = inl (refl, tt)
  first_named-IsChoice (x ∷ xs) h = elim (Bool-cases (is_fitting x)) [
    | inl e ↦
        subst (λ r. IsChoice (x ∷ xs) r)
          (sym (ap (λ t. if t then x else first_named identity product xs) e))
          (inr (
            here xs,
            (fitting_iff x).0 e,
            (
              λ fits. omega arith,
              All-map (λ y. priority x ≤ priority y) (λ y. HasFit y → priority x ≤ priority y)
                  (λ y k fits. k) xs h.0,
            ),
          ))
    | inr e ↦
        subst (λ r. IsChoice (x ∷ xs) r)
          (sym (ap (λ t. if t then x else first_named identity product xs) e))
          (elim (first_named-IsChoice xs h.1) [
            | inl (none, no_fit) ↦ inl (none, (not_fitting x e, no_fit))
            | inr (m, fits, least) ↦
                inr (there x xs m, fits, (λ k. absurd (not_fitting x e k), least))
          ])
  ]

  IsChoice-profiles :
      (chosen : DeviceProfileSpec) → IsChoice profiles chosen → IsChoice registered chosen
  IsChoice-profiles chosen (inl (none, no_fit)) =
      inl (none, (sorted_by-All earlier (λ spec. ¬ HasFit spec) registered).0 no_fit)
  IsChoice-profiles chosen (inr (m, fits, least)) = inr (
    member_of_all (λ x. Member x registered) m
        ((sorted_by-All earlier (λ x. Member x registered) registered).1 (all_members registered)),
    fits,
    (sorted_by-All earlier (λ spec. HasFit spec → priority chosen ≤ priority spec) registered).0
        least,
  )

-- The vendor is given, and is not Morningstar.
abbrev pub IsForeign : Text → Type 0
IsForeign vendor_name =
    (normalize vendor_name ≢ []) × (¬ Occurs (text "morningstar") (normalize vendor_name))

IsForeign-cases :
    (vendor_name : Text)
    → ((is_explicit_non_morningstar_vendor vendor_name ≡ true) × IsForeign vendor_name)
      ⊎ ((is_explicit_non_morningstar_vendor vendor_name ≡ false) × (¬ IsForeign vendor_name))
unfolding is_explicit_non_morningstar_vendor
IsForeign-cases vendor_name =
    let n = normalize vendor_name in
    let ours = contains_iff (text "morningstar") n in
    elim (is_empty-cases n) [
      | inl (nil, e) ↦
          inr (ap (λ b. not b && not (contains (text "morningstar") n)) e, λ f. f.0 nil)
      | inr (some_vendor, e) ↦ elim (Bool-cases (contains (text "morningstar") n)) [
        | inl c ↦ inr (
          ap (λ b. not b && not (contains (text "morningstar") n)) e ∙ ap (λ b. not b) c,
          λ f. f.1 (ours.0 c),
        )
        | inr c ↦ inl (
          ap (λ b. not b && not (contains (text "morningstar") n)) e ∙ ap (λ b. not b) c,
          (some_vendor, λ o. let again = ours.1 o in cc),
        )
      ]
    ]

-- A device that names a vendor other than Morningstar gets the generic profile. Of any other device
-- the profile that is selected is a registered one with an alias that fits, and no registered profile
-- with an alias that fits has a lower detection priority; it is the generic one if no alias of a
-- registered profile fits. An alias fits if it is not empty when normalized, and then occurs in the
-- normalized vendor and product or is the normalized product.
pub select_spec_lem :
    (vendor_name product_code : Text)
    → (IsForeign vendor_name → select_spec vendor_name product_code ≡ generic)
      × ((¬ IsForeign vendor_name)
          → IsChoice
              (normalize (vendor_name ++ text " " ++ product_code))
              (normalize product_code)
              registered
              (select_spec vendor_name product_code))
unfolding select_spec
select_spec_lem vendor_name product_code =
    let identity = normalize (vendor_name ++ text " " ++ product_code) in
    let product = normalize product_code in
    let found = first_named identity product profiles in
    elim (IsForeign-cases vendor_name) [
      | inl (foreign, is_foreign) ↦
          (λ f. ap (λ t. if t then generic else found) foreign, λ f. absurd (f is_foreign))
      | inr (own, not_foreign) ↦ (
        λ f. absurd (not_foreign f),
        λ f.
            subst (λ r. IsChoice identity product registered r)
              (sym (ap (λ t. if t then generic else found) own))
              (IsChoice-profiles identity product found
                (first_named-IsChoice identity product profiles (sorted_by-IsOrdered registered))),
      )
    ]
