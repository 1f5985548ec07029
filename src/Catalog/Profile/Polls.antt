-- ===== src/Catalog/Profile/Polls.antt =====
-- The whole poll of a profile, from the reads to the report
-- (src/morningstar_modbus/catalog/profile.py).
use morningstar_modbus_api.Prelude.{
  ◌≡◌, refl, ap, inl, inr, true, false, none, List, [], ◌∷◌, ◌++◌, all, All, Bool-cases, map,
}
use morningstar_modbus_api.Prelude.Text.{Text}
use morningstar_modbus_api.Prelude.Floats.{Floats}
use morningstar_modbus_api.Errors.{Result, ok}
use morningstar_modbus_api.Errors
use morningstar_modbus_api.Catalog.Types.{RegisterBlock, DeviceProfileSpec}
use morningstar_modbus_api.Catalog.Compatibility.{Firmware, effective_items}
use morningstar_modbus_api.Catalog.Decode.{RegisterFloats}
use morningstar_modbus_api.Catalog.Decode.Accepts.{ReadsNumerals}
use morningstar_modbus_api.Catalog.Families.Decodes.{
  Decodes, all_sound, is_served, is_table_served, is_served-Decodes,
}
use morningstar_modbus_api.Catalog.Derived.{RegisterValue, derive_register_values}
use morningstar_modbus_api.Catalog.Words.{Words, block_key, sorted_items}
use morningstar_modbus_api.Catalog.Words.Lookup.{length-raw_words}
use morningstar_modbus_api.Catalog.Profile.{
  Profile, load_metadata, read_all_live, ungated, gate_block, gate_register, raw_value,
  decode_fields, decode_all, report, poll,
}
use morningstar_modbus_api.Catalog.Profile.Coherent.{IsKnownBlock, IsCoherent}
use morningstar_modbus_api.Catalog.Profile.Loads.{
  ReadsBlock, Serves, Grows, grown, loads, reads_live,
}
use morningstar_modbus_api.Catalog.Profile.Reports.{
  is_ungated, is_required, reports, and_parts, all_effective, map-ungated, is_required-IsKnown,
  decoded_fields, all_weaken, reports-left, reports-right,
}
use morningstar_modbus_api.Transports.Client.{ReadOnlyModbusClient, AnswersInFull}

mandatory_known :
    (blocks : List RegisterBlock) (d d' : Words)
    → Grows d d'
    → All (λ b. Serves b d true) blocks
    → All (λ b. Serves b d' false) blocks
    → All (λ b. RegisterBlock.optional b ≡ false → IsKnownBlock d' (block_key b)) blocks
mandatory_known [] d d' g h k = tt
mandatory_known (b ∷ blocks) d d' g (here, later) (live, rest) = (
  λ mandatory. elim (Bool-cases b.cache) [
    | inl e ↦ grown d d' (block_key b) g (here e mandatory)
    | inr e ↦ live e mandatory
  ],
  mandatory_known blocks d d' g later rest,
)

module _ (F : Floats) (R : RegisterFloats F) (C : ReadOnlyModbusClient) where
  -- The parts of a poll, one after another.
  polled :
      (show : F.Real → Text) (spec : DeviceProfileSpec) (firmware : Firmware) (p p' p'' : Profile C)
      (d : Words) (values : List (RegisterValue F.Real))
      → load_metadata C spec p ≡ (ok tt, p')
      → effective_items (map gate_block spec.blocks) firmware ≡ ok (map gate_block spec.blocks)
      → map ungated (map gate_block spec.blocks) ≡ spec.blocks
      → read_all_live C spec.blocks p'.metadata p' ≡ (ok d, p'')
      → report F R show spec firmware d ≡ ok values
      → poll F R C show spec firmware p ≡ (ok values, p'')
  unfolding poll
  polled show spec firmware p p' p'' d values loaded kept whole live reported =
      rw loaded (rw kept (rw whole (rw live (ap (λ r. (r, p'')) reported))))

  decoded_all :
      (spec : DeviceProfileSpec) (firmware : Firmware) (d : Words)
      (values : List (RegisterValue F.Real))
      → effective_items (map gate_register spec.registers) firmware
        ≡ ok (map gate_register spec.registers)
      → map ungated (map gate_register spec.registers) ≡ spec.registers
      → decode_fields F R none spec.registers d ≡ ok values
      → decode_all F R spec none firmware d ≡ ok values
  unfolding decode_all
  decoded_all spec firmware d values kept whole decoded = rw kept (rw whole decoded)

  -- If the client answers in full, and returns the words of every block that is not optional, then
  -- a poll of a profile whose table is served and has no firmware gates returns, from any coherent
  -- cache and at any firmware, and reports every field that lies in a block that is not optional.
  -- It is assumed that float() reads a plain numeral as a number that is not zero.
  pub poll-reports :
      AnswersInFull C
      → ReadsNumerals F R
      → (show : F.Real → Text) (spec : DeviceProfileSpec) → is_table_served spec ≡ true
      → is_ungated spec ≡ true
      → All (ReadsBlock C) spec.blocks
      → (firmware : Firmware) (p : Profile C) → IsCoherent p
      → (values : List (RegisterValue F.Real)) × ((poll F R C show spec firmware p).0 ≡ ok values)
        × (all (reports F R (is_required spec.blocks) values) spec.registers ≡ true)
  poll-reports full numerals show spec served free reads firmware p c =
      let (free_blocks, free_registers) = and_parts _ _ free in
      let (p', loaded, c', g, cached) = loads C full spec p reads c in
      let (d, p'', live, g', read) = reads_live C full spec.blocks p'.metadata p' reads in
      let known = mandatory_known spec.blocks p'.metadata d g' cached read in
      let decodes =
        all_sound (Decodes F R) (is_served spec.blocks)
          (λ r k. is_served-Decodes F R numerals spec.blocks r k) spec.registers served in
      let (vs, decoded, found) =
        decoded_fields F R (is_required spec.blocks) spec.registers d decodes (λ r k.
          length-raw_words r.function r.address r.words d
            (is_required-IsKnown spec.blocks r d known k)) in
      let raw = map (raw_value F R) (sorted_items d) in
      let derived = derive_register_values F R show spec.name vs in
      let all_decoded =
        decoded_all spec firmware d vs
          (all_effective gate_register spec.registers firmware free_registers)
          (map-ungated gate_register spec.registers (λ r. refl)) decoded in
      let result =
        polled show spec firmware p p' p'' d (raw ++ vs ++ derived) loaded
          (all_effective gate_block spec.blocks firmware free_blocks)
          (map-ungated gate_block spec.blocks (λ b. refl)) live
          (ap
            (λ m.
              Errors.◌>>=◌ m
                (λ values. ok (raw ++ values ++ derive_register_values F R show spec.name values)))
            all_decoded) in
      (
        raw ++ vs ++ derived,
        ap (λ r. r.0) result,
        all_weaken (reports F R (is_required spec.blocks) vs) _ spec.registers
            (λ r k.
              reports-left F R (is_required spec.blocks) (raw ++ vs) derived r
                (reports-right F R (is_required spec.blocks) raw vs r k))
            found,
      )
