-- ===== src/Catalog/Decode/Needs.antt =====
-- What each decoder of decode_value (src/morningstar_modbus/catalog/scaling.py) needs of a field,
-- and chains of tests that serve such needs.
use morningstar_modbus_api.Prelude.{
  ℕ, suc, ◌≡◌, sym, Bool, true, false, not, List, [], ◌∷◌, ◌&&◌, ◌||◌, leb, ◌==◌, length, drop,
  if◌then◌else◌,
}
use morningstar_modbus_api.Prelude.Text.{Text, text, text_eq, starts_with}
use morningstar_modbus_api.Errors.{Result, ok}
use morningstar_modbus_api.Catalog.Decode.{first_of}

-- A numeral of up to 40 digits with one point at most and a digit that is not zero.
abbrev pub is_numeral_char : ℕ → Bool
is_numeral_char c = (leb 48 c && leb c 57) || c == 46

abbrev pub all_numeral : Text → Bool
all_numeral [] = true
all_numeral (c ∷ s) = is_numeral_char c && all_numeral s

abbrev pub has_digit : Text → Bool
has_digit [] = false
has_digit (c ∷ s) = (leb 49 c && leb c 57) || has_digit s

abbrev pub points : Text → ℕ
points [] = 0
points (c ∷ s) = let rest = points s in if c == 46 then suc rest else rest

abbrev pub is_numeral : Text → Bool
is_numeral s = all_numeral s && has_digit s && leb (points s) 1 && leb (length s) 40

-- What a decoder needs of the number of words and of its parameter, in the order of the source.
abbrev pub needs : Text → ℕ → List (Bool × Bool)
needs d n =
    (text_eq d (text "raw"), true)
    ∷ (text_eq d (text "s16"), true)
    ∷ (text_eq d (text "f16"), true)
    ∷ (text_eq d (text "f32"), n == 2)
    ∷ (text_eq d (text "bcd"), true)
    ∷ (text_eq d (text "byte_pair_version"), true)
    ∷ (text_eq d (text "u32"), n == 2)
    ∷ (text_eq d (text "s32"), n == 2)
    ∷ (starts_with (text "u32_factor:") d, n == 2 && is_numeral (drop 11 d))
    ∷ (starts_with (text "s32_factor:") d, n == 2 && is_numeral (drop 11 d))
    ∷ (text_eq d (text "ascii_lo_hi"), true)
    ∷ (text_eq d (text "ascii_hi_lo"), true)
    ∷ (text_eq d (text "bitfield_words"), true)
    ∷ (text_eq d (text "f16_percent"), true)
    ∷ (starts_with (text "factor:") d, is_numeral (drop 7 d))
    ∷ (starts_with (text "ufactor:") d, is_numeral (drop 8 d))
    ∷ (starts_with (text "divide:") d, is_numeral (drop 7 d))
    ∷ (starts_with (text "udivide:") d, is_numeral (drop 8 d))
    ∷ (starts_with (text "percent:") d, is_numeral (drop 8 d))
    ∷ (text_eq d (text "tristar_voltage"), true)
    ∷ (text_eq d (text "tristar_current"), true)
    ∷ (text_eq d (text "tristar_power"), true)
    ∷ (text_eq d (text "tristar_rts_temp"), true)
    ∷ (starts_with (text "ts600_") d, true)
    ∷ (text_eq d (text "suresine_classic_current"), true)
    ∷ []

abbrev pub first_need : List (Bool × Bool) → Bool
first_need [] = false
first_need ((test, need) ∷ later) = let rest = first_need later in if test then need else rest

-- A field of n words with a decoder that the catalog may name.
abbrev pub is_decodable : Text → ℕ → Bool
is_decodable d n = not (n == 0) && first_need (needs d n)

abbrev pub Returns : {A : Type 0} → Result A → Type 0
Returns {A = A} m = (a : A) × (m ≡ ok a)

-- The same tests, and a value wherever the need is met.
abbrev pub Serves : {A : Type 0} → List (Bool × Bool) → List (Bool × Result A) → Type 0
Serves [] [] = Unit
Serves [] (v ∷ values) = ⊥
Serves (n ∷ ns) [] = ⊥
Serves ((test, need) ∷ ns) ((test', value) ∷ values) =
    (test ≡ test') × (need ≡ true → Returns value) × Serves ns values

pub first_of-Returns :
    {A : Type 0} (ns : List (Bool × Bool)) (values : List (Bool × Result A)) (other : Result A)
    → Serves ns values
    → first_need ns ≡ true
    → Returns (first_of values other)
first_of-Returns [] values other s h = cc
first_of-Returns (n ∷ ns) [] other s h = absurd s
first_of-Returns ((true, need) ∷ ns) ((test', value) ∷ values) other (e, v, s) h =
    let (a, r) = v h in (a, rw (sym e) r)
first_of-Returns ((false, need) ∷ ns) ((test', value) ∷ values) other (e, v, s) h =
    let (a, r) = first_of-Returns ns values other s h in (a, rw (sym e) r)
