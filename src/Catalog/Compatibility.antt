-- ===== src/Catalog/Compatibility.antt =====
-- Version comparison and firmware gates of src/morningstar_modbus/catalog/compatibility.py.
-- A digit is one of 0 to 9; the other decimal digits of Unicode, which \d also matches, are left
-- out.
pub mod Order
pub mod Gates
mod Tests
use morningstar_modbus_api.Prelude.{
  ℕ, zero, suc, ◌+◌, ◌-◌, ◌*◌, ◌≡◌, Bool, true, false, not, Option, none, some, List, [], ◌∷◌, ◌++◌,
  ◌&&◌, ◌||◌, leb, ltb, ◌==◌, max, length, if◌then◌else◌,
}
use morningstar_modbus_api.Prelude.Text.{Text}
use morningstar_modbus_api.Prelude.Int.{ℤ, sub_ℕ, ltb_ℤ, pos}
use morningstar_modbus_api.Errors.{
  Result, ok, err, value_error, version_components, raise_if, ◌>>=◌, ◌>>◌,
}

-- A firmware value: None or a bool, or anything else as the text that it is searched as,
-- `f"{value:g}"` of a float and `str(value).strip()` of the rest.
pub data Firmware : Type 0 where
  absent : Firmware
  written : Text → Firmware

abbrev pub is_digit : ℕ → Bool
is_digit c = leb 48 c && leb c 57

-- int(part) of the digits read so far, ahead of the later parts.
abbrev pub close : Option ℕ → List ℕ → List ℕ
close none later = later
close (some n) later = n ∷ later

abbrev pub extend : Option ℕ → ℕ → Option ℕ
extend none c = some (c - 48)
extend (some n) c = some (n * 10 + (c - 48))

-- The components of a text, with the number that is being read: `int(part)` for the parts that
-- re.findall(r"\d+") finds.
unfoldable pub components : Option ℕ → Text → List ℕ
components part [] = close part []
components part (c ∷ s) = elim (is_digit c) [
  | true ↦ components (extend part c) s
  | false ↦ close part (components none s)
]

unfoldable pub version_tuple : Firmware → List ℕ
unfolding components
version_tuple absent = []
version_tuple (written s) = components none s

-- (0,) * n
abbrev zeros : ℕ → List ℕ
zeros zero = []
zeros (suc n) = 0 ∷ zeros n

abbrev pub pad : ℕ → List ℕ → List ℕ
pad width a = a ++ zeros (width - length a)

-- a < b of two tuples
abbrev pub tuple_less : List ℕ → List ℕ → Bool
tuple_less [] [] = false
tuple_less [] (y ∷ b) = true
tuple_less (x ∷ a) [] = false
tuple_less (x ∷ a) (y ∷ b) = let rest = tuple_less a b in if x == y then rest else ltb x y

abbrev is_empty : List ℕ → Bool
is_empty [] = true
is_empty (x ∷ a) = false

abbrev one_if : Bool → ℕ
one_if true = 1
one_if false = 0

abbrev pub compare_padded : List ℕ → List ℕ → ℤ
compare_padded a b = sub_ℕ (one_if (tuple_less b a)) (one_if (tuple_less a b))

abbrev pub compare_tuples : List ℕ → List ℕ → Result ℤ
compare_tuples a b = do
  let width = max (length a) (length b)
  raise_if (is_empty a || is_empty b) (value_error version_components)
  ok (compare_padded (pad width a) (pad width b))

unfoldable pub compare_versions : Firmware → Firmware → Result ℤ
unfolding version_tuple
compare_versions left right = compare_tuples (version_tuple left) (version_tuple right)

abbrev below : Result ℤ → Result Bool
below r = do c ← r; ok (ltb_ℤ c (pos 0))

abbrev above : Result ℤ → Result Bool
above r = do c ← r; ok (ltb_ℤ (pos 0) c)

abbrev is_none : Option Text → Bool
is_none none = true
is_none (some s) = false

abbrev too_old : Firmware → Option Text → Result Bool
too_old value none = ok false
too_old value (some since) = below (compare_versions value (written since))

abbrev too_new : Firmware → Option Text → Result Bool
too_new value none = ok false
too_new value (some until) = above (compare_versions value (written until))

-- `if test: return False` ahead of the rest.
abbrev unless : Bool → Result Bool → Result Bool
unless true rest = ok false
unless false rest = rest

abbrev within : Firmware → Option Text → Option Text → Result Bool
within value since until = do
  old ← too_old value since
  unless old (do new ← too_new value until; ok (not new))

unfoldable pub in_range : Firmware → Option Text → Option Text → Result Bool
in_range value since until =
    if is_empty (version_tuple value)
    then ok (is_none since && is_none until)
    else within value since until

-- An item with its two gates.
pub record FirmwareGated {ℓ} (A : Type ℓ) : Type ℓ where
  pub item : A
  pub since_firmware : Option Text
  pub until_firmware : Option Text

abbrev keep_if {ℓ} : {A : Type ℓ} → Bool → A → List A → List A
keep_if true x rest = x ∷ rest
keep_if false x rest = rest

unfoldable pub effective_items {ℓ} :
    {A : Type ℓ} → List (FirmwareGated A) → Firmware → Result (List (FirmwareGated A))
effective_items [] firmware = ok []
effective_items (i ∷ items) firmware = do
  kept ← in_range firmware i.since_firmware i.until_firmware
  rest ← effective_items items firmware
  ok (keep_if kept i rest)
