-- ===== src/Catalog/Decode.antt =====
-- decode_value of src/morningstar_modbus/catalog/scaling.py: one catalog field by the name of its
-- decoder. The IEEE formats, which struct reads, and float(text) are parameters.
pub mod Needs
pub mod Accepts
mod Tests
use morningstar_modbus_api.Prelude.{
  ℕ, ◌+◌, ◌-◌, ◌*◌, ◌%◌, Bool, true, false, Option, none, some, List, [], ◌∷◌, leb, ◌==◌, length,
  drop, if◌then◌else◌,
}
use morningstar_modbus_api.Prelude.Text.{Text, text, text_eq, starts_with}
use morningstar_modbus_api.Prelude.Int.{ℤ, pos}
use morningstar_modbus_api.Prelude.Floats.{Floats}
use morningstar_modbus_api.Errors.{
  Result, ok, err, value_error, decoder_words, empty_field, unknown_decoder, zero_division_error,
  raise_if, ◌>>=◌, ◌>>◌,
}
use morningstar_modbus_api.Catalog.Scaling.{
  signed_16, unsigned_32, signed_32, bcd_integer, byte_pair_version, ascii_low_high, ascii_high_low,
  little_word_integer,
}

pub record RegisterFloats (F : Floats) : Type 0 where
  -- struct.unpack of ">e" and ">f", of the low 16 bits of the words
  pub float16 : ℕ → F.Real
  pub unpack_float32 : ℕ → ℕ → F.Real
  -- float(text)
  pub parse : Text → Result F.Real
  -- float(i)
  pub of_ℤ : ℤ → F.Real

pub data Value (R : Type 0) : Type 0 where
  real : R → Value R
  integer : ℤ → Value R
  string : Text → Value R

-- context.get(address, 0)
abbrev pub context_word : List (ℕ × ℕ) → ℕ → ℕ
context_word [] address = 0
context_word ((a, w) ∷ context) address =
    let rest = context_word context address in if a == address then w else rest

-- `if test: return value` for each pair in turn.
abbrev pub first_of {ℓ} : {A : Type ℓ} → List (Bool × Result A) → Result A → Result A
first_of [] otherwise = otherwise
first_of ((test, value) ∷ later) otherwise =
    let rest = first_of later otherwise in if test then value else rest

module _ (F : Floats) (R : RegisterFloats F) where
  unfoldable pub fixed_point_scale : ℕ → ℕ → F.Real
  fixed_point_scale high_word low_word =
      F.add (F.of_ℕ (high_word % 0x10000)) (F.divide (F.of_ℕ (low_word % 0x10000)) (F.of_ℕ 65536))

  unfoldable pub float32 : List ℕ → Result F.Real
  float32 (high ∷ low ∷ []) = ok (R.unpack_float32 (high % 0x10000) (low % 0x10000))
  float32 _ = err (value_error decoder_words)

  abbrev whole : ℤ → Result (Value F.Real)
  whole z = ok (integer z)

  abbrev float : F.Real → Result (Value F.Real)
  float x = ok (real x)

  abbrev signed : ℕ → F.Real
  signed raw = R.of_ℤ (signed_16 raw)

  abbrev unsigned : ℕ → F.Real
  unsigned raw = F.of_ℕ (raw % 0x10000)

  -- `combined`, of two words
  abbrev pub combined : List ℕ → Result ℕ
  combined (high ∷ low ∷ []) = ok (unsigned_32 high low)
  combined _ = err (value_error decoder_words)

  -- float(decoder.split(":", 1)[1]), after a prefix that ends with the colon
  abbrev pub parameter : Text → Text → Result F.Real
  parameter prefix decoder = R.parse (drop (length prefix) decoder)

  abbrev pub scaled : Text → Text → (F.Real → F.Real) → Result (Value F.Real)
  scaled prefix decoder f = do x ← parameter prefix decoder; float (f x)

  -- The same for a divisor, at which Python raises if it is zero.
  abbrev pub divided : Text → Text → F.Real → Result (Value F.Real)
  divided prefix decoder numerator = do
    x ← parameter prefix decoder
    raise_if (F.equal x (F.of_ℕ 0)) zero_division_error
    float (F.divide numerator x)

  -- signed_16(raw) * scale / 32768.0
  abbrev pub fraction_of : ℕ → F.Real → F.Real
  fraction_of raw scale = F.divide (F.multiply (signed raw) scale) (F.of_ℕ 32768)

  abbrev pub scale_at : List (ℕ × ℕ) → ℕ → F.Real
  scale_at context address =
      fixed_point_scale (context_word context address) (context_word context (address + 1))

  unfoldable pub decode_ts600 : Text → ℕ → List (ℕ × ℕ) → Result (Value F.Real)
  unfolding fixed_point_scale
  decode_ts600 kind raw context =
      first_of
        ((leb 19 (bcd_integer (context_word context 4)), float (R.float16 raw))
          ∷ (text_eq kind (text "voltage"), float (fraction_of raw (scale_at context 0)))
          ∷ (text_eq kind (text "current"), float (fraction_of raw (scale_at context 2)))
          ∷ [])
        (whole (pos raw))

  -- 6.4 if output_voltage >= 180 else 17.0
  abbrev full_scale : ℕ → F.Real
  full_scale output_voltage =
      if leb 180 output_voltage then F.divide (F.of_ℕ 64) (F.of_ℕ 10) else F.of_ℕ 17

  abbrev power : ℕ → List (ℕ × ℕ) → F.Real
  power raw context =
      F.divide (F.multiply (F.multiply (unsigned raw) (scale_at context 0)) (scale_at context 2))
        (F.of_ℕ 131072)

  abbrev pub rts_temperature : ℕ → Result (Value F.Real)
  rts_temperature raw =
      if raw % 0x10000 == 0x80 then ok (string (text "DISCONNECTED")) else whole (signed_16 raw)

  abbrev pub decode_named : Text → ℕ → List ℕ → List (ℕ × ℕ) → List (Bool × Result (Value F.Real))
  decode_named decoder raw words context =
      (text_eq decoder (text "raw"), whole (pos raw))
      ∷ (text_eq decoder (text "s16"), whole (signed_16 raw))
      ∷ (text_eq decoder (text "f16"), float (R.float16 raw))
      ∷ (text_eq decoder (text "f32"), float32 words >>= λ x. float x)
      ∷ (text_eq decoder (text "bcd"), whole (pos (bcd_integer raw)))
      ∷ (text_eq decoder (text "byte_pair_version"), ok (string (byte_pair_version raw)))
      ∷ (text_eq decoder (text "u32"), combined words >>= λ n. whole (pos n))
      ∷ (text_eq decoder (text "s32"), signed_32 words >>= λ z. whole z)
      ∷ (
        starts_with (text "u32_factor:") decoder,
        combined words >>= λ n. scaled (text "u32_factor:") decoder (λ x. F.multiply (F.of_ℕ n) x),
      )
      ∷ (
        starts_with (text "s32_factor:") decoder,
        signed_32 words >>= λ z. scaled (text "s32_factor:") decoder (λ x. F.multiply (R.of_ℤ z) x),
      )
      ∷ (text_eq decoder (text "ascii_lo_hi"), ok (string (ascii_low_high words)))
      ∷ (text_eq decoder (text "ascii_hi_lo"), ok (string (ascii_high_low words)))
      ∷ (text_eq decoder (text "bitfield_words"), whole (pos (little_word_integer words)))
      ∷ (text_eq decoder (text "f16_percent"), float (F.multiply (R.float16 raw) (F.of_ℕ 100)))
      ∷ (
        starts_with (text "factor:") decoder,
        scaled (text "factor:") decoder (λ x. F.multiply (signed raw) x),
      )
      ∷ (
        starts_with (text "ufactor:") decoder,
        scaled (text "ufactor:") decoder (λ x. F.multiply (unsigned raw) x),
      )
      ∷ (starts_with (text "divide:") decoder, divided (text "divide:") decoder (signed raw))
      ∷ (starts_with (text "udivide:") decoder, divided (text "udivide:") decoder (unsigned raw))
      ∷ (
        starts_with (text "percent:") decoder,
        divided (text "percent:") decoder (F.multiply (unsigned raw) (F.of_ℕ 100)),
      )
      ∷ (text_eq decoder (text "tristar_voltage"), float (fraction_of raw (scale_at context 0)))
      ∷ (text_eq decoder (text "tristar_current"), float (fraction_of raw (scale_at context 2)))
      ∷ (text_eq decoder (text "tristar_power"), float (power raw context))
      ∷ (text_eq decoder (text "tristar_rts_temp"), rts_temperature raw)
      ∷ (starts_with (text "ts600_") decoder, decode_ts600 (drop 6 decoder) raw context)
      ∷ (
        text_eq decoder (text "suresine_classic_current"),
        float (fraction_of raw (full_scale (context_word context 13))),
      )
      ∷ []

  unfoldable pub decode_value : Text → List ℕ → List (ℕ × ℕ) → Result (Value F.Real)
  unfolding fixed_point_scale float32 decode_ts600
  decode_value decoder [] context = err (value_error empty_field)
  decode_value decoder (raw ∷ words) context =
      first_of (decode_named decoder raw (raw ∷ words) context) (err (value_error unknown_decoder))
