-- ===== src/Catalog/Types.antt =====
-- The register tables of src/morningstar_modbus/catalog/types.py. Left out are the descriptions,
-- the reserved ranges, and what only the documentation of a profile reads.
use morningstar_modbus_api.Prelude.{ℕ, Bool, true, false, Option, none, List, ◌==◌}
use morningstar_modbus_api.Prelude.Text.{Text}

pub data RegisterFunction : Type 0 where
  holding input : RegisterFunction

-- f == g
abbrev pub same_kind : RegisterFunction → RegisterFunction → Bool
same_kind holding holding = true
same_kind input input = true
same_kind holding input = false
same_kind input holding = false

pub data RegisterCategory : Type 0 where
  telemetry state fault alarm metadata network configuration : RegisterCategory

-- The position of a category in the source, for comparisons.
abbrev category_index : RegisterCategory → ℕ
category_index telemetry = 0
category_index state = 1
category_index fault = 2
category_index alarm = 3
category_index metadata = 4
category_index network = 5
category_index configuration = 6

abbrev pub same_category : RegisterCategory → RegisterCategory → Bool
same_category c d = category_index c == category_index d

pub record RegisterBlock : Type 0 where
  pub address : ℕ
  pub count : ℕ
  pub function : RegisterFunction
  pub category : RegisterCategory
  pub optional : Bool
  pub cache : Bool
  pub since_firmware : Option Text
  pub until_firmware : Option Text

pub record RegisterSpec : Type 0 where
  pub name : Text
  pub address : ℕ
  pub function : RegisterFunction
  pub words : ℕ
  pub decoder : Text
  pub unit : Option Text
  pub category : RegisterCategory
  pub enum : List (ℕ × Text)
  pub bits : List (ℕ × Text)
  pub since_firmware : Option Text
  pub until_firmware : Option Text

pub record DeviceProfileSpec : Type 0 where
  pub name : Text
  pub family : Text
  pub aliases : List Text
  pub source_id : Text
  pub blocks : List RegisterBlock
  pub registers : List RegisterSpec
  pub capabilities : List Text
  pub detection_priority : ℕ
  pub catalog_revision : Text
  pub firmware_verified_max : Option Text

-- A holding register for every firmware: the name, the address, the words, the decoder, the unit,
-- the category, and the names of its values and of its bits.
abbrev pub holding_register :
    Text
    → ℕ
    → ℕ
    → Text
    → Option Text
    → RegisterCategory
    → List (ℕ × Text)
    → List (ℕ × Text)
    → RegisterSpec
holding_register name address words decoder unit category enum bits = record {
  name = name;
  address = address;
  function = holding;
  words = words;
  decoder = decoder;
  unit = unit;
  category = category;
  enum = enum;
  bits = bits;
  since_firmware = none;
  until_firmware = none;
}

-- A block of holding registers that every firmware has: the address, the count, the category,
-- and whether it is optional and cached.
abbrev pub holding_block : ℕ → ℕ → RegisterCategory → Bool → Bool → RegisterBlock
holding_block address count category optional cache = record {
  address = address;
  count = count;
  function = holding;
  category = category;
  optional = optional;
  cache = cache;
  since_firmware = none;
  until_firmware = none;
}
