-- ===== src/Catalog/Words.antt =====
-- The dict of register words that CatalogProfile of src/morningstar_modbus/catalog/profile.py fills
-- and decodes from.
pub mod Lookup
use morningstar_modbus_api.Prelude.{
  ℕ, zero, suc, ◌+◌, ◌/◌, ◌%◌, ◌^◌, Bool, true, false, not, Option, none, some, List, [], ◌∷◌, ◌++◌,
  ◌&&◌, ◌||◌, ltb, ◌==◌, any, length, map, if◌then◌else◌,
}
use morningstar_modbus_api.Prelude.Text.{Text, text}
use morningstar_modbus_api.Prelude.Int.{ℤ, pos, negsuc}
use morningstar_modbus_api.Prelude.Floats.{Floats}
use morningstar_modbus_api.Errors.{Result, ok, err}
use morningstar_modbus_api.Actions.{
  Action, pure, lift, gets, modify, for_each, tolerate, ◌>>=◌, ◌>>◌,
}
use morningstar_modbus_api.Catalog.Types.{
  RegisterFunction, holding, input, same_kind, RegisterCategory, RegisterBlock, RegisterSpec,
  DeviceProfileSpec,
}
use morningstar_modbus_api.Catalog.Compatibility.{Firmware, FirmwareGated, effective_items}
use morningstar_modbus_api.Catalog.Scaling.{decimal}
use morningstar_modbus_api.Catalog.Decode.{
  RegisterFloats, Value, real, integer, string, decode_value,
}
use morningstar_modbus_api.Catalog.Derived.{RegisterValue, derive_register_values}

-- The key of a word, and the key of a block with its count.
abbrev pub WordKey : Type 0
WordKey = RegisterFunction × ℕ

-- A dict of words, the newest first.
abbrev pub Words : Type 0
Words = List (WordKey × ℕ)

abbrev pub BlockKey : Type 0
BlockKey = RegisterFunction × ℕ × ℕ

abbrev pub same_word : WordKey → WordKey → Bool
same_word (f, a) (g, b) = same_kind f g && a == b

abbrev pub same_block : BlockKey → BlockKey → Bool
same_block (f, a, m) (g, b, n) = same_kind f g && a == b && m == n

abbrev pub block_key : RegisterBlock → BlockKey
block_key b = (b.function, b.address, b.count)

abbrev pub word_at : WordKey → Words → Option ℕ
word_at k [] = none
word_at k ((key, w) ∷ d) = let rest = word_at k d in if same_word k key then some w else rest

-- for offset, word in enumerate(words): d[(function, address + offset)] = word
abbrev pub store_words : RegisterFunction → ℕ → List ℕ → Words → Words
store_words f address [] d = d
store_words f address (w ∷ ws) d = store_words f (address + 1) ws (((f, address), w) ∷ d)

abbrev cons_found : Option ℕ → List ℕ → List ℕ
cons_found none ws = ws
cons_found (some w) ws = w ∷ ws

-- The words at `count` addresses, less those that are missing.
abbrev pub raw_words : RegisterFunction → ℕ → ℕ → Words → List ℕ
raw_words f address zero d = []
raw_words f address (suc count) d =
    cons_found (word_at (f, address) d) (raw_words f (address + 1) count d)

-- holding_context and input_context
abbrev pub context_of : RegisterFunction → Words → List (ℕ × ℕ)
context_of f [] = []
context_of f (((g, a), w) ∷ d) =
    let rest = context_of f d in if same_kind f g then (a, w) ∷ rest else rest

abbrev key_less : WordKey → WordKey → Bool
key_less (holding, a) (holding, b) = ltb a b
key_less (input, a) (input, b) = ltb a b
key_less (holding, a) (input, b) = true
key_less (input, a) (holding, b) = false

abbrev pub insert_item : WordKey → ℕ → Words → Words
insert_item k w [] = (k, w) ∷ []
insert_item k w ((key, v) ∷ d) =
    let rest = insert_item k w d in
    if same_word k key
    then (k, w) ∷ d
    else if key_less k key
    then (k, w) ∷ (key, v) ∷ d
    else (key, v) ∷ rest

-- sorted(words_by_key.items(), key=...), from the oldest entry on
unfoldable pub sorted_items : Words → Words
sorted_items [] = []
sorted_items ((k, w) ∷ d) = insert_item k w (sorted_items d)
