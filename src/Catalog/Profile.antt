-- ===== src/Catalog/Profile.antt =====
-- CatalogProfile of src/morningstar_modbus/catalog/profile.py: the reads of a profile, its cache of
-- metadata, and the decoded values. The profile's specification is an argument of its methods; the
-- client that they are given, with its connection, is a part of the state.
pub mod Coherent
pub mod Loads
pub mod Reports
pub mod Polls
pub mod Cache
mod Tests
use morningstar_modbus_api.Prelude.{
  ℕ, Bool, true, false, not, Option, none, some, List, [], ◌∷◌, ◌++◌, ◌||◌, ◌==◌, any, length, map,
  if◌then◌else◌,
}
use morningstar_modbus_api.Prelude.Text.{Text, text}
use morningstar_modbus_api.Prelude.Int.{pos}
use morningstar_modbus_api.Prelude.Floats.{Floats}
use morningstar_modbus_api.Errors.{Result, ok, err}
use morningstar_modbus_api.Errors
use morningstar_modbus_api.Actions.{
  Action, pure, lift, gets, modify, for_each, tolerate, skip_if, ◌>>=◌, ◌>>◌,
}
use morningstar_modbus_api.Catalog.Types.{
  RegisterFunction, RegisterCategory, same_category, RegisterBlock, RegisterSpec, DeviceProfileSpec,
}
use morningstar_modbus_api.Catalog.Compatibility.{Firmware, written, FirmwareGated, effective_items}
use morningstar_modbus_api.Catalog.Decode.{RegisterFloats, Value, integer, decode_value}
use morningstar_modbus_api.Catalog.Derived.{RegisterValue, derive_register_values}
use morningstar_modbus_api.Catalog.Words.{
  WordKey, BlockKey, Words, same_block, block_key, store_words, raw_words, context_of, sorted_items,
}
use morningstar_modbus_api.Catalog.Naming.{hex_address, function_name, name_value}
use morningstar_modbus_api.Transports.Client.{ReadOnlyModbusClient}

abbrev pub gate_block : RegisterBlock → FirmwareGated RegisterBlock
gate_block b = record {
  item = b;
  since_firmware = b.since_firmware;
  until_firmware = b.until_firmware;
}

abbrev pub gate_register : RegisterSpec → FirmwareGated RegisterSpec
gate_register r = record {
  item = r;
  since_firmware = r.since_firmware;
  until_firmware = r.until_firmware;
}

abbrev pub ungated {ℓ} : {A : Type ℓ} → FirmwareGated A → A
ungated g = g.item

-- The object, less its specification and its lock, with the client of the running call.
pub record CatalogProfile (S : Type 0) : Type 0 where
  pub metadata : Words
  pub cached_blocks : List BlockKey
  pub client : S

module _ (C : ReadOnlyModbusClient) where
  abbrev pub Profile : Type 0
  Profile = CatalogProfile C.State

  -- _read_words
  abbrev pub read_words : RegisterFunction → ℕ → ℕ → Action Profile (List ℕ)
  read_words f address count p =
      let (words, s) = C.read f address count p.client in (words, record p { client = s })

  -- _read_block
  abbrev pub read_block : RegisterBlock → Action Profile (List ℕ)
  read_block b = read_words b.function b.address b.count

  abbrev pub remember_words : RegisterFunction → ℕ → List ℕ → Profile → Profile
  remember_words f address words p = record p { metadata = store_words f address words p.metadata }

  abbrev pub remember_block : RegisterBlock → Option (List ℕ) → Action Profile (Unit {0})
  remember_block b none = pure tt
  remember_block b (some words) = modify (λ p. record p {
    metadata = store_words b.function b.address words p.metadata;
    cached_blocks = block_key b ∷ p.cached_blocks;
  })

  abbrev pub fetch_block : RegisterBlock → Action Profile (Unit {0})
  fetch_block b = tolerate b.optional (read_block b) >>= λ words. remember_block b words

  -- if not block.cache, or block_key in self._cached_blocks: continue
  abbrev pub is_settled : RegisterBlock → Profile → Bool
  is_settled b p = not b.cache || any (same_block (block_key b)) p.cached_blocks

  abbrev pub load_block : RegisterBlock → Action Profile (Unit {0})
  load_block b p = skip_if (is_settled b p) (fetch_block b) p

  unfoldable pub load_metadata : DeviceProfileSpec → Action Profile (Unit {0})
  load_metadata spec = for_each spec.blocks load_block

  -- all(key in self._metadata for key in keys)
  abbrev pub is_known : RegisterSpec → Profile → Bool
  is_known r p = length (raw_words r.function r.address r.words p.metadata) == r.words

  abbrev pub remember_field : RegisterSpec → Option (List ℕ) → Action Profile (Unit {0})
  remember_field r none = pure tt
  remember_field r (some words) = modify (remember_words r.function r.address words)

  abbrev pub fetch_field : RegisterSpec → Action Profile (Unit {0})
  fetch_field r p =
      skip_if (not (same_category r.category RegisterCategory.metadata) || is_known r p)
        (tolerate true (read_words r.function r.address r.words) >>= λ words.
          remember_field r words)
        p

  abbrev pub with_found : RegisterBlock → Option (List ℕ) → Words → Words
  with_found b none d = d
  with_found b (some words) d = store_words b.function b.address words d

  -- if block.cache: continue
  abbrev pub read_unless : Bool → RegisterBlock → Words → Action Profile Words
  read_unless true b d = pure d
  read_unless false b d =
      tolerate b.optional (read_block b) >>= λ words. pure (with_found b words d)

  -- A block of the running poll.
  abbrev pub read_live : RegisterBlock → Words → Action Profile Words
  read_live b = read_unless b.cache b

  abbrev pub read_all_live : List RegisterBlock → Words → Action Profile Words
  read_all_live [] d = pure d
  read_all_live (b ∷ blocks) d = read_live b d >>= λ d'. read_all_live blocks d'

module _ (F : Floats) (R : RegisterFloats F) where
  abbrev pub raw_value : WordKey × ℕ → RegisterValue F.Real
  raw_value ((f, address), word) = record {
    name = function_name f ++ text "_0x" ++ hex_address address;
    address = address;
    function = f;
    raw = word ∷ [];
    value = integer (pos word);
    unit = none;
  }

  -- _decode_register
  abbrev pub decode_register : RegisterSpec → List ℕ → List (ℕ × ℕ) → Result (Value F.Real)
  decode_register r raw context =
      Errors.◌>>=◌ (decode_value F R r.decoder raw context) (λ v. ok (name_value r.enum r.bits v))

  abbrev pub field_value : RegisterSpec → List ℕ → Value F.Real → RegisterValue F.Real
  field_value r raw v = record {
    name = r.name;
    address = r.address;
    function = r.function;
    raw = raw;
    value = v;
    unit = r.unit;
  }

  -- The value of one field, or none where a word of it is missing.
  abbrev pub decode_field : RegisterSpec → Words → Result (List (RegisterValue F.Real))
  decode_field r words =
      let raw = raw_words r.function r.address r.words words in
      let decoded = decode_register r raw (context_of r.function words) in
      if length raw == r.words
      then Errors.◌>>=◌ decoded (λ v. ok (field_value r raw v ∷ []))
      else ok []

  -- category is not None and register.category != category
  abbrev pub is_other : Option RegisterCategory → RegisterSpec → Bool
  is_other none r = false
  is_other (some category) r = not (same_category category r.category)

  abbrev pub decode_fields :
      Option RegisterCategory → List RegisterSpec → Words → Result (List (RegisterValue F.Real))
  decode_fields category [] words = ok []
  decode_fields category (r ∷ registers) words =
      Errors.◌>>=◌ (if is_other category r then ok [] else decode_field r words) (λ here.
        Errors.◌>>=◌ (decode_fields category registers words) (λ later. ok (here ++ later)))

  -- _decode_named
  unfoldable pub decode_all :
      DeviceProfileSpec
      → Option RegisterCategory
      → Firmware
      → Words
      → Result (List (RegisterValue F.Real))
  decode_all spec category firmware words =
      Errors.◌>>=◌ (effective_items (map gate_register spec.registers) firmware)
        (λ registers. decode_fields category (map ungated registers) words)

  abbrev pub report :
      (F.Real → Text) → DeviceProfileSpec → Firmware → Words → Result (List (RegisterValue F.Real))
  report show spec firmware words = Errors.◌>>=◌ (decode_all spec none firmware words) (λ values.
      ok (
        map raw_value (sorted_items words)
        ++ values
        ++ derive_register_values F R show spec.name values))

  module _ (C : ReadOnlyModbusClient) where
    -- `firmware` is left at "".
    unfoldable pub read_metadata :
        DeviceProfileSpec → Action (Profile C) (List (RegisterValue F.Real))
    unfolding load_metadata decode_all
    read_metadata spec =
        load_metadata C spec
        >> (for_each spec.registers (fetch_field C)
            >> (gets (λ p. CatalogProfile.metadata p) >>= λ words.
                lift (decode_all spec (some RegisterCategory.metadata) (written []) words)))

    unfoldable pub poll :
        (F.Real → Text)
        → DeviceProfileSpec
        → Firmware
        → Action (Profile C) (List (RegisterValue F.Real))
    unfolding load_metadata decode_all sorted_items derive_register_values
    poll show spec firmware =
        load_metadata C spec
        >> (gets (λ p. CatalogProfile.metadata p) >>= λ metadata.
            lift (effective_items (map gate_block spec.blocks) firmware) >>= λ blocks.
            read_all_live C (map ungated blocks) metadata >>= λ words.
            lift (report show spec firmware words))
