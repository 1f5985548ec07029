-- ===== src/Catalog/Profile/Reports.antt =====
-- A poll reports every field that the device must answer
-- (src/morningstar_modbus/catalog/profile.py).
use morningstar_modbus_api.Prelude.{
  ℕ, ◌+◌, ◌-◌, ◌<◌, ◌≤◌, ◌≡◌, refl, subst, sym, ap, ◌∙◌, inl, inr, Bool, true, false, not, Option,
  none, some, List, [], ◌∷◌, ◌++◌, ◌||◌, ◌&&◌, ◌==◌, leb, any, all, length, arith, All, Bool-cases,
  map, if◌then◌else◌,
}
use morningstar_modbus_api.Prelude.Text.{Text, text_eq, text_eq_refl}
use morningstar_modbus_api.Prelude.Floats.{Floats}
use morningstar_modbus_api.Errors.{Result, ok, err}
use morningstar_modbus_api.Errors
use morningstar_modbus_api.Catalog.Types.{RegisterBlock, RegisterSpec, DeviceProfileSpec, same_kind}
use morningstar_modbus_api.Catalog.Compatibility.{
  Firmware, FirmwareGated, in_range, effective_items,
}
use morningstar_modbus_api.Catalog.Decode.{RegisterFloats}
use morningstar_modbus_api.Catalog.Families.Decodes.{covers, Decodes}
use morningstar_modbus_api.Catalog.Derived.{RegisterValue}
use morningstar_modbus_api.Catalog.Naming.{name_value}
use morningstar_modbus_api.Catalog.Words.{Words, block_key, raw_words, context_of}
use morningstar_modbus_api.Catalog.Words.Lookup.{IsKnown, same_kind_refl}
use morningstar_modbus_api.Catalog.Profile.{
  ungated, decode_register, field_value, decode_field, decode_fields,
}
use morningstar_modbus_api.Catalog.Profile.Coherent.{IsKnownBlock}
use morningstar_modbus_api.Catalog.Profile.Loads.{same_kind_sound}

abbrev is_none {ℓ} : {A : Type ℓ} → Option A → Bool
is_none none = true
is_none (some a) = false

-- No gate on the firmware.
abbrev pub is_free : Option Text → Option Text → Bool
is_free since until = is_none since && is_none until

-- Every item of the table is there at any firmware.
abbrev pub is_ungated : DeviceProfileSpec → Bool
is_ungated spec =
    all (λ b. is_free (RegisterBlock.since_firmware b) (RegisterBlock.until_firmware b)) spec.blocks
    && all (λ r. is_free (RegisterSpec.since_firmware r) (RegisterSpec.until_firmware r))
        spec.registers

-- The field lies in a block that is not optional.
abbrev pub is_required : List RegisterBlock → RegisterSpec → Bool
is_required blocks r = any (λ b. covers r b && not (RegisterBlock.optional b)) blocks

abbrev pub is_reported : {Real : Type 0} → List (RegisterValue Real) → RegisterSpec → Bool
is_reported values r =
    any
      (λ v.
        text_eq (RegisterValue.name v) r.name
        && same_kind (RegisterValue.function v) r.function
        && RegisterValue.address v == r.address)
      values

pub and_parts : (a b : Bool) → (a && b) ≡ true → (a ≡ true) × (b ≡ true)
and_parts a b h = ground arith

both_true : (a b : Bool) → a ≡ true → b ≡ true → (a && b) ≡ true
both_true a b h k = ground arith

or_right : (a b : Bool) → b ≡ true → (a || b) ≡ true
or_right a b h = ground arith

false_of_not : (a : Bool) → not a ≡ true → a ≡ false
false_of_not a h = ground arith

free : (since until : Option Text) → is_free since until ≡ true → (since ≡ none) × (until ≡ none)
free none none h = (refl, refl)
free none (some u) h = cc
free (some s) until h = cc

in_range_free : (firmware : Firmware) → in_range firmware none none ≡ ok true
unfolding in_range
in_range_free firmware = both _
  where
    both : (t : Bool) → (if t then ok true else ok true) ≡ ok true
    both true = refl
    both false = refl

-- A table without gates is kept whole.
pub all_effective :
    {A : Type 0} (gate : A → FirmwareGated A) (xs : List A) (firmware : Firmware)
    → all
        (λ x.
          is_free (FirmwareGated.since_firmware (gate x)) (FirmwareGated.until_firmware (gate x)))
        xs
      ≡ true
    → effective_items (map gate xs) firmware ≡ ok (map gate xs)
unfolding effective_items
all_effective gate [] firmware h = refl
all_effective gate (x ∷ xs) firmware h =
    let g = gate x in
    let (here, later) = and_parts (is_free g.since_firmware g.until_firmware) _ h in
    let (a, b) = free g.since_firmware g.until_firmware here in
    let kept : in_range firmware g.since_firmware g.until_firmware ≡ ok true =
      ap (λ s. in_range firmware s g.until_firmware) a
      ∙ ap (λ u. in_range firmware none u) b
      ∙ in_range_free firmware in
    rw kept (rw (all_effective gate xs firmware later) refl)

pub map-ungated :
    {A : Type 0} (gate : A → FirmwareGated A) (xs : List A)
    → ((x : A) → (gate x).item ≡ x)
    → map ungated (map gate xs) ≡ xs
map-ungated gate [] h = refl
map-ungated gate (x ∷ xs) h = cc (h x, map-ungated gate xs h)

eq_sound : (a b : ℕ) → (a == b) ≡ true → a ≡ b
eq_sound a b h = ground arith

eq_refl : (a b : ℕ) → a ≡ b → (a == b) ≡ true
eq_refl a b h = ground arith

cover_parts :
    (k : Bool) (a w b c : ℕ)
    → (k && leb b a && leb (a + w) (b + c) && leb 1 c && leb c 125) ≡ true
    → (k ≡ true) × (b ≤ a) × (a + w ≤ b + c)
cover_parts k a w b c h = ground arith

covers-IsKnown :
    (b : RegisterBlock) (r : RegisterSpec) (d : Words)
    → covers r b ≡ true
    → IsKnownBlock d (block_key b)
    → (i : ℕ) → i < r.words
    → IsKnown d (r.function, r.address + i)
covers-IsKnown b r d h known i le =
    let (kind, from, to) =
      cover_parts (same_kind r.function b.function) r.address r.words b.address b.count h in
    let at : b.address + (r.address + i - b.address) ≡ r.address + i = omega (arith, from) in
    let inside : r.address + i - b.address < b.count = omega (arith, from, to, le) in
    let same = same_kind_sound r.function b.function kind in
    subst (λ f. IsKnown d (f, r.address + i)) (sym same)
      (subst (λ a. IsKnown d (b.function, a)) at (known (r.address + i - b.address) inside))

pub is_required-IsKnown :
    (blocks : List RegisterBlock) (r : RegisterSpec) (d : Words)
    → All (λ b. RegisterBlock.optional b ≡ false → IsKnownBlock d (block_key b)) blocks
    → is_required blocks r ≡ true
    → (i : ℕ) → i < r.words
    → IsKnown d (r.function, r.address + i)
is_required-IsKnown [] r d all h = cc
is_required-IsKnown (b ∷ blocks) r d (here, later) h =
    elim (Bool-cases (covers r b && not b.optional)) [
      | inl e ↦
          let (covered, mandatory) = and_parts (covers r b) (not b.optional) e in
          covers-IsKnown b r d covered (here (false_of_not b.optional mandatory))
      | inr e ↦
          is_required-IsKnown blocks r d later (sym (ap (λ t. t || is_required blocks r) e) ∙ h)
    ]

any-append_left :
    {A : Type 0} (p : A → Bool) (xs ys : List A) → any p xs ≡ true → any p (xs ++ ys) ≡ true
any-append_left p [] ys h = cc
any-append_left p (x ∷ xs) ys h = elim (Bool-cases (p x)) [
  | inl e ↦ ap (λ t. t || any p (xs ++ ys)) e
  | inr e ↦
      ap (λ t. t || any p (xs ++ ys)) e
      ∙ any-append_left p xs ys (sym (ap (λ t. t || any p xs) e) ∙ h)
]

any-append_right :
    {A : Type 0} (p : A → Bool) (xs ys : List A) → any p ys ≡ true → any p (xs ++ ys) ≡ true
any-append_right p [] ys h = h
any-append_right p (x ∷ xs) ys h = or_right (p x) _ (any-append_right p xs ys h)

pub all_weaken :
    {A : Type 0} (p q : A → Bool) (xs : List A)
    → ((x : A) → p x ≡ true → q x ≡ true)
    → all p xs ≡ true
    → all q xs ≡ true
all_weaken p q [] k h = refl
all_weaken p q (x ∷ xs) k h =
    let (here, later) = and_parts (p x) (all p xs) h in
    both_true (q x) (all q xs) (k x here) (all_weaken p q xs k later)

reported_here :
    {Real : Type 0} (v : RegisterValue Real) (r : RegisterSpec)
    → v.name ≡ r.name
    → v.function ≡ r.function
    → v.address ≡ r.address
    → is_reported (v ∷ []) r ≡ true
reported_here v r n f a =
    let named : text_eq v.name r.name ≡ true = ap (λ t. text_eq t r.name) n ∙ text_eq_refl r.name in
    let kind : same_kind v.function r.function ≡ true =
      ap (λ g. same_kind g r.function) f ∙ same_kind_refl r.function in
    let at : (v.address == r.address) ≡ true = eq_refl v.address r.address a in
    ground (arith, named, kind, at)

module _ (F : Floats) (R : RegisterFloats F) where
  -- A field decodes, and is reported if its words are there.
  decoded_field :
      (r : RegisterSpec) (d : Words)
      → Decodes F R r
      → (vs : List (RegisterValue F.Real)) × (decode_field F R r d ≡ ok vs)
        × (length (raw_words r.function r.address r.words d) ≡ r.words → is_reported vs r ≡ true)
  decoded_field r d decodes =
      let raw = raw_words r.function r.address r.words d in
      let decoded = decode_register F R r raw (context_of r.function d) in
      let chain = λ (t : Bool).
        if t then Errors.◌>>=◌ decoded (λ v. ok (field_value F R r raw v ∷ [])) else ok [] in
      elim (Bool-cases (length raw == r.words)) [
        | inl e ↦
            let (v, returned) =
              decodes raw (context_of r.function d) (eq_sound (length raw) r.words e) in
            (
              field_value F R r raw (name_value r.enum r.bits v) ∷ [],
              ap chain e
                  ∙ ap
                      (λ m.
                        Errors.◌>>=◌ (Errors.◌>>=◌ m (λ w. ok (name_value r.enum r.bits w)))
                          (λ w. ok (field_value F R r raw w ∷ [])))
                      returned,
              λ same.
                  reported_here (field_value F R r raw (name_value r.enum r.bits v)) r refl refl
                    refl,
            )
        | inr e ↦ ([], ap chain e, λ same. let there = eq_refl (length raw) r.words same in cc)
      ]

  abbrev pub reports : (RegisterSpec → Bool) → List (RegisterValue F.Real) → RegisterSpec → Bool
  reports required values r = not (required r) || is_reported values r

  pub reports-left :
      (required : RegisterSpec → Bool) (xs ys : List (RegisterValue F.Real)) (r : RegisterSpec)
      → reports required xs r ≡ true
      → reports required (xs ++ ys) r ≡ true
  reports-left required xs ys r h = elim (Bool-cases (required r)) [
    | inl e ↦
        ap (λ t. not t || is_reported (xs ++ ys) r) e
        ∙ any-append_left _ xs ys (sym (ap (λ t. not t || is_reported xs r) e) ∙ h)
    | inr e ↦ ap (λ t. not t || is_reported (xs ++ ys) r) e
  ]

  pub reports-right :
      (required : RegisterSpec → Bool) (xs ys : List (RegisterValue F.Real)) (r : RegisterSpec)
      → reports required ys r ≡ true
      → reports required (xs ++ ys) r ≡ true
  reports-right required xs ys r h = elim (Bool-cases (required r)) [
    | inl e ↦
        ap (λ t. not t || is_reported (xs ++ ys) r) e
        ∙ any-append_right _ xs ys (sym (ap (λ t. not t || is_reported ys r) e) ∙ h)
    | inr e ↦ ap (λ t. not t || is_reported (xs ++ ys) r) e
  ]

  pub decoded_fields :
      (required : RegisterSpec → Bool) (registers : List RegisterSpec) (d : Words)
      → All (Decodes F R) registers
      → ((r : RegisterSpec)
          → required r ≡ true
          → length (raw_words r.function r.address r.words d) ≡ r.words)
      → (vs : List (RegisterValue F.Real)) × (decode_fields F R none registers d ≡ ok vs)
        × (all (reports required vs) registers ≡ true)
  decoded_fields required [] d decodes known = ([], refl, refl)
  decoded_fields required (r ∷ registers) d (here, later) known =
      let (vs, e, found) = decoded_field r d here in
      let (ws, e', rest) = decoded_fields required registers d later known in
      (
        vs ++ ws,
        rw e (rw e' refl),
        both_true (reports required (vs ++ ws) r) _
            (reports-left required vs ws r (reported r vs found))
            (all_weaken (reports required ws) (reports required (vs ++ ws)) registers
              (λ x k. reports-right required vs ws x k) rest),
      )
    where
      reported :
          (x : RegisterSpec) (vs : List (RegisterValue F.Real))
          → (length (raw_words x.function x.address x.words d) ≡ x.words → is_reported vs x ≡ true)
          → reports required vs x ≡ true
      reported x vs found = elim (Bool-cases (required x)) [
        | inl e ↦ or_right (not (required x)) (is_reported vs x) (found (known x e))
        | inr e ↦ ap (λ t. not t || is_reported vs x) e
      ]
