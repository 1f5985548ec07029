-- ===== src/Catalog/Naming.antt =====
-- The names of decoded values, of bits and of raw registers in CatalogProfile of
-- src/morningstar_modbus/catalog/profile.py.
use morningstar_modbus_api.Prelude.{
  ℕ, zero, suc, ◌+◌, ◌/◌, ◌%◌, ◌^◌, Bool, true, false, Option, none, some, List, [], ◌∷◌, ◌++◌, ltb,
  ◌==◌, if◌then◌else◌,
}
use morningstar_modbus_api.Prelude.Text.{Text, text}
use morningstar_modbus_api.Prelude.Int.{ℤ, pos, negsuc}
use morningstar_modbus_api.Catalog.Types.{RegisterFunction, holding, input}
use morningstar_modbus_api.Catalog.Scaling.{decimal}
use morningstar_modbus_api.Catalog.Decode.{Value, integer, string}

abbrev hex_upper : ℕ → ℕ
hex_upper d = if ltb d 10 then 48 + d else 55 + d

-- The digits of a number below 16 ** digits, and of any, with fuel for its digits after the first.
abbrev pub hex_digits : ℕ → ℕ → Text
hex_digits zero n = []
hex_digits (suc digits) n = hex_upper (n / 16 ^ digits % 16) ∷ hex_digits digits n

abbrev pub hex_all : ℕ → ℕ → Text
hex_all zero n = hex_upper (n % 16) ∷ []
hex_all (suc fuel) n = elim (ltb n 16) [
  | true ↦ hex_upper n ∷ []
  | false ↦ hex_all fuel (n / 16) ++ hex_upper (n % 16) ∷ []
]

-- f"{address:04X}"
abbrev pub hex_address : ℕ → Text
hex_address address = if ltb address 0x10000 then hex_digits 4 address else hex_all address address

abbrev pub function_name : RegisterFunction → Text
function_name holding = text "holding"
function_name input = text "input"

-- Decoded integers in two's complement: value & (1 << bit)
abbrev pub has_bit : ℤ → ℕ → Bool
has_bit (pos n) bit = n / 2 ^ bit % 2 == 1
has_bit (negsuc n) bit = n / 2 ^ bit % 2 == 0

abbrev pub show_integer : ℤ → Text
show_integer (pos n) = decimal n
show_integer (negsuc n) = text "-" ++ decimal (suc n)

abbrev pub same_integer : ℤ → ℕ → Bool
same_integer (pos n) m = n == m
same_integer (negsuc n) m = false

-- dict(enum).get(value): of two entries for one value the later counts.
abbrev pub enum_name : List (ℕ × Text) → ℤ → Option Text
enum_name [] z = none
enum_name ((value, name) ∷ later) z = elim (enum_name later z) [
  | none ↦ if same_integer z value then some name else none
  | some found ↦ some found
]

abbrev pub name_or : Option Text → Text → Text
name_or none other = other
name_or (some name) other = name

abbrev pub active_bits : List (ℕ × Text) → ℤ → List Text
active_bits [] z = []
active_bits ((bit, name) ∷ bits) z =
    let rest = active_bits bits z in if has_bit z bit then name ∷ rest else rest

-- ",".join(active) if active else "NONE"
abbrev join_after : Text → List Text → Text
join_after name [] = name
join_after name (next ∷ names) = name ++ text "," ++ join_after next names

abbrev pub joined : List Text → Text
joined [] = text "NONE"
joined (name ∷ names) = join_after name names

-- What is made of a decoded value by the names of its values and of its bits.
unfoldable pub name_value :
    {Real : Type 0} → List (ℕ × Text) → List (ℕ × Text) → Value Real → Value Real
name_value (e ∷ enum) bits (integer z) =
    string (name_or (enum_name (e ∷ enum) z) (text "UNKNOWN_" ++ show_integer z))
name_value [] (b ∷ bits) (integer z) = string (joined (active_bits (b ∷ bits) z))
name_value enum bits value = value
