-- ===== src/Catalog/Families/Decodes.antt =====
-- Every field of the register tables can be decoded and is read by a block of its table
-- (src/morningstar_modbus/catalog/families, src/morningstar_modbus/catalog/scaling.py).
use morningstar_modbus_api.Prelude.{
  ℕ, ◌+◌, ◌≡◌, refl, ap, ◌∙◌, Bool, true, List, [], ◌∷◌, ◌&&◌, leb, all, any, length, arith, All,
}
use morningstar_modbus_api.Prelude.Floats.{Floats}
use morningstar_modbus_api.Catalog.Types.{RegisterBlock, RegisterSpec, DeviceProfileSpec, same_kind}
use morningstar_modbus_api.Catalog.Decode.{RegisterFloats, decode_value}
use morningstar_modbus_api.Catalog.Decode.Needs.{is_decodable, Returns}
use morningstar_modbus_api.Catalog.Decode.Accepts.{ReadsNumerals, decode_value-Returns}
use morningstar_modbus_api.Catalog.Families.TristarPwm.{tristar_pwm}
use morningstar_modbus_api.Catalog.Families.TristarMppt.{tristar_mppt}
use morningstar_modbus_api.Catalog.Families.SunsaverMppt.{sunsaver_mppt}
use morningstar_modbus_api.Catalog.Families.ProstarPwm.{prostar_pwm}
use morningstar_modbus_api.Catalog.Families.ProstarMppt.{prostar_mppt}
use morningstar_modbus_api.Catalog.Families.TristarMppt600v.{tristar_mppt_600v}
use morningstar_modbus_api.Catalog.Families.SunsaverDuo.{sunsaver_duo}
use morningstar_modbus_api.Catalog.Families.SuresineClassic.{suresine_classic}
use morningstar_modbus_api.Catalog.Families.SuresineGen2.{suresine_gen2}
use morningstar_modbus_api.Catalog.Families.RelayDriver.{relay_driver}
use morningstar_modbus_api.Catalog.Families.GenstarMppt.{genstar_mppt}
use morningstar_modbus_api.Catalog.Families.Readyedge.{readyedge}
use morningstar_modbus_api.Catalog.Families.GenstarMpptSystemMetering.{enhanced_genstar_mppt}

-- The words of the field lie inside the block, which one read can fetch.
abbrev pub covers : RegisterSpec → RegisterBlock → Bool
covers r b =
    same_kind r.function b.function
    && leb b.address r.address
    && leb (r.address + r.words) (b.address + b.count)
    && leb 1 b.count
    && leb b.count 125

abbrev pub is_served : List RegisterBlock → RegisterSpec → Bool
is_served blocks r = is_decodable r.decoder r.words && any (covers r) blocks

-- The modelled product families.
abbrev pub catalog : List DeviceProfileSpec
catalog =
    tristar_pwm ∷ tristar_mppt ∷ sunsaver_mppt ∷ prostar_pwm ∷ prostar_mppt ∷ tristar_mppt_600v
    ∷ sunsaver_duo ∷ suresine_classic ∷ suresine_gen2 ∷ relay_driver ∷ genstar_mppt ∷ readyedge
    ∷ enhanced_genstar_mppt ∷ []

abbrev pub is_table_served : DeviceProfileSpec → Bool
is_table_served spec = all (is_served spec.blocks) spec.registers

served_test : all is_table_served catalog ≡ true
served_test = refl

and_true : (a b : Bool) → (a && b) ≡ true → (a ≡ true) × (b ≡ true)
and_true a b h = ground arith

pub all_sound {ℓ κ} :
    {A : Type ℓ} (P : A → Type κ) (p : A → Bool)
    → ((x : A) → p x ≡ true → P x)
    → (xs : List A) → all p xs ≡ true
    → All P xs
all_sound P p k [] h = tt
all_sound P p k (x ∷ xs) h =
    let (here, later) = and_true (p x) (all p xs) h in (k x here, all_sound P p k xs later)

module _ (F : Floats) (R : RegisterFloats F) where
  -- Whatever words of the field's length are read, and whatever the context.
  abbrev pub Decodes : RegisterSpec → Type 0
  Decodes r =
      (words : List ℕ) (context : List (ℕ × ℕ))
      → length words ≡ r.words
      → Returns (decode_value F R r.decoder words context)

  -- A field that passes the test of its table decodes.
  pub is_served-Decodes :
      ReadsNumerals F R
      → (blocks : List RegisterBlock) (r : RegisterSpec) → is_served blocks r ≡ true
      → Decodes r
  is_served-Decodes reads blocks r h words context e =
      let (decodable, covered) =
        and_true (is_decodable r.decoder r.words) (any (covers r) blocks) h in
      decode_value-Returns F R reads r.decoder words context
        (ap (λ n. is_decodable r.decoder n) e ∙ decodable)

  -- Every field of every modelled register table decodes to a value, whatever words of its
  -- length the device answers with and whatever else was read. It is assumed that float() reads
  -- a plain numeral as a number that is not zero.
  pub catalog-Decodes :
      ReadsNumerals F R → All (λ spec. All Decodes (DeviceProfileSpec.registers spec)) catalog
  catalog-Decodes reads =
      all_sound (λ spec. All Decodes (DeviceProfileSpec.registers spec)) is_table_served
        (λ spec h.
          all_sound Decodes (is_served (DeviceProfileSpec.blocks spec))
            (λ r k. is_served-Decodes reads (DeviceProfileSpec.blocks spec) r k)
            (DeviceProfileSpec.registers spec) h)
        catalog served_test
