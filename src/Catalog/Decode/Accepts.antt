-- ===== src/Catalog/Decode/Accepts.antt =====
-- The catalog fields that decode_value of src/morningstar_modbus/catalog/scaling.py decodes.
use morningstar_modbus_api.Prelude.{
  ℕ, ◌≡◌, refl, ap, inl, inr, Bool, true, false, not, List, [], ◌∷◌, ◌&&◌, leb, ◌==◌, length, drop,
  arith, Bool-cases, map, ◌%◌, if◌then◌else◌,
}
use morningstar_modbus_api.Prelude.Text.{Text, text, text_eq}
use morningstar_modbus_api.Prelude.Int.{pos}
use morningstar_modbus_api.Prelude.Floats.{Floats}
use morningstar_modbus_api.Errors.{Result, ok, err, value_error, unknown_decoder, ◌>>=◌, >>=-ok}
use morningstar_modbus_api.Catalog.Scaling.{signed_16, signed_32, bcd_integer}
use morningstar_modbus_api.Catalog.Decode.{
  RegisterFloats, Value, first_of, decode_named, decode_value, decode_ts600, float32, combined,
  scaled, divided, real, integer, string, context_word, fraction_of, scale_at, rts_temperature,
}
use morningstar_modbus_api.Catalog.Decode.Needs.{
  is_numeral, needs, first_need, is_decodable, Returns, Serves, first_of-Returns,
}

-- What the code relies on of float(text): a plain numeral is read as a number that is not zero.
abbrev pub ReadsNumerals : (F : Floats) → RegisterFloats F → Type 0
ReadsNumerals F R =
    (s : Text)
    → is_numeral s ≡ true
    → (x : F.Real) × (R.parse s ≡ ok x) × (F.equal x (F.of_ℕ 0) ≡ false)

module _ (F : Floats) (R : RegisterFloats F) (reads : ReadsNumerals F R) where
  scaled-Returns :
      (prefix d : Text) (f : F.Real → F.Real)
      → is_numeral (drop (length prefix) d) ≡ true
      → Returns (scaled F R prefix d f)
  scaled-Returns prefix d f h =
      let (x, e, z) = reads (drop (length prefix) d) h in >>=-ok _ _ x e (_, refl)

  divided-Returns :
      (prefix d : Text) (numerator : F.Real)
      → is_numeral (drop (length prefix) d) ≡ true
      → Returns (divided F R prefix d numerator)
  divided-Returns prefix d numerator h =
      let (x, e, z) = reads (drop (length prefix) d) h in
      >>=-ok _ _ x e (real (F.divide numerator x), rw z refl)

  float32-Returns : (words : List ℕ) → (length words == 2) ≡ true → Returns (float32 F R words)
  unfolding float32
  float32-Returns [] h = cc
  float32-Returns (w ∷ []) h = cc
  float32-Returns (high ∷ low ∷ []) h = (_, refl)
  float32-Returns (high ∷ low ∷ w ∷ words) h = absurd (ground arith)

  signed_32-Returns : (words : List ℕ) → (length words == 2) ≡ true → Returns (signed_32 words)
  unfolding signed_32
  signed_32-Returns [] h = cc
  signed_32-Returns (w ∷ []) h = cc
  signed_32-Returns (high ∷ low ∷ []) h = (_, refl)
  signed_32-Returns (high ∷ low ∷ w ∷ words) h = absurd (ground arith)

  combined-Returns : (words : List ℕ) → (length words == 2) ≡ true → Returns (combined F R words)
  combined-Returns [] h = cc
  combined-Returns (w ∷ []) h = cc
  combined-Returns (high ∷ low ∷ []) h = (_, refl)
  combined-Returns (high ∷ low ∷ w ∷ words) h = absurd (ground arith)

  and_both : (a b : Bool) → (a && b) ≡ true → (a ≡ true) × (b ≡ true)
  and_both a b h = ground arith

  -- The value of the first test that holds, when every value is there.
  first_of_ok :
      (values : List (Bool × Value F.Real)) (other : Value F.Real)
      → Returns (first_of (map (λ v. (v.0, ok v.1)) values) (ok other))
  first_of_ok [] other = (other, refl)
  first_of_ok ((true, v) ∷ values) other = (v, refl)
  first_of_ok ((false, v) ∷ values) other = first_of_ok values other

  ts600-Returns :
      (kind : Text) (raw : ℕ) (context : List (ℕ × ℕ)) → Returns (decode_ts600 F R kind raw context)
  unfolding decode_ts600
  ts600-Returns kind raw context =
      first_of_ok
        ((leb 19 (bcd_integer (context_word context 4)), real (R.float16 raw))
          ∷ (text_eq kind (text "voltage"), real (fraction_of F R raw (scale_at F R context 0)))
          ∷ (text_eq kind (text "current"), real (fraction_of F R raw (scale_at F R context 2)))
          ∷ [])
        (integer (pos raw))

  factor-Returns :
      {A : Type 0} (m : Result A) (prefix d : Text) (n : Bool) (f : A → F.Real → F.Real)
      → (n ≡ true → Returns m)
      → (n && is_numeral (drop (length prefix) d)) ≡ true
      → Returns (m >>= λ a. scaled F R prefix d (f a))
  factor-Returns m prefix d n f k h =
      let (two, numeral) = and_both n (is_numeral (drop (length prefix) d)) h in
      let (a, e) = k two in >>=-ok _ _ a e (scaled-Returns prefix d (f a) numeral)

  rts-Returns : (raw : ℕ) → Returns (rts_temperature F R raw)
  rts-Returns raw = elim (Bool-cases (raw % 0x10000 == 0x80)) [
    | inl e ↦ (
      _,
      ap (λ t. if t then ok (string (text "DISCONNECTED")) else ok (integer (signed_16 raw))) e,
    )
    | inr e ↦ (
      _,
      ap (λ t. if t then ok (string (text "DISCONNECTED")) else ok (integer (signed_16 raw))) e,
    )
  ]

  whole-Returns :
      {A : Type 0} (m : Result A) (f : A → Value F.Real) → Returns m → Returns (m >>= λ a. ok (f a))
  whole-Returns m f (a, e) = >>=-ok _ _ a e (f a, refl)

  decode_named-Serves :
      (d : Text) (raw : ℕ) (words : List ℕ) (context : List (ℕ × ℕ))
      → Serves (needs d (length (raw ∷ words))) (decode_named F R d raw (raw ∷ words) context)
  decode_named-Serves d raw words context =
      let ws = raw ∷ words in
      (
        refl,
        λ h. (_, refl),
        (
          refl,
          λ h. (_, refl),
          (
            refl,
            λ h. (_, refl),
            (
              refl,
              λ h. whole-Returns (float32 F R ws) real (float32-Returns ws h),
              (
                refl,
                λ h. (_, refl),
                (
                  refl,
                  λ h. (_, refl),
                  (
                    refl,
                    λ h.
                        whole-Returns (combined F R ws) (λ n. integer (pos n))
                          (combined-Returns ws h),
                    (
                      refl,
                      λ h. whole-Returns (signed_32 ws) integer (signed_32-Returns ws h),
                      (
                        refl,
                        factor-Returns (combined F R ws) (text "u32_factor:") d (length ws == 2)
                            (λ n x. F.multiply (F.of_ℕ n) x) (combined-Returns ws),
                        (
                          refl,
                          factor-Returns (signed_32 ws) (text "s32_factor:") d (length ws == 2)
                              (λ z x. F.multiply (R.of_ℤ z) x) (signed_32-Returns ws),
                          (
                            refl,
                            λ h. (_, refl),
                            (
                              refl,
                              λ h. (_, refl),
                              (
                                refl,
                                λ h. (_, refl),
                                (
                                  refl,
                                  λ h. (_, refl),
                                  (
                                    refl,
                                    scaled-Returns (text "factor:") d _,
                                    (
                                      refl,
                                      scaled-Returns (text "ufactor:") d _,
                                      (
                                        refl,
                                        divided-Returns (text "divide:") d _,
                                        (
                                          refl,
                                          divided-Returns (text "udivide:") d _,
                                          (
                                            refl,
                                            divided-Returns (text "percent:") d _,
                                            (
                                              refl,
                                              λ h. (_, refl),
                                              (
                                                refl,
                                                λ h. (_, refl),
                                                (
                                                  refl,
                                                  λ h. (_, refl),
                                                  (
                                                    refl,
                                                    λ h. rts-Returns raw,
                                                    (
                                                      refl,
                                                      λ h. ts600-Returns (drop 6 d) raw context,
                                                      (refl, λ h. (_, refl), tt),
                                                    ),
                                                  ),
                                                ),
                                              ),
                                            ),
                                          ),
                                        ),
                                      ),
                                    ),
                                  ),
                                ),
                              ),
                            ),
                          ),
                        ),
                      ),
                    ),
                  ),
                ),
              ),
            ),
          ),
        ),
      )

  -- decode_value returns a value for every field whose decoder the catalog may name, with the
  -- number of words that the decoder takes and, where it has a parameter, a plain numeral that
  -- is not zero: no ValueError, whatever the words and the context hold. It is assumed that
  -- float() reads such a numeral.
  pub decode_value-Returns :
      (decoder : Text) (words : List ℕ) (context : List (ℕ × ℕ))
      → is_decodable decoder (length words) ≡ true
      → Returns (decode_value F R decoder words context)
  unfolding decode_value
  decode_value-Returns decoder [] context h = cc
  decode_value-Returns decoder (raw ∷ words) context h =
      first_of-Returns (needs decoder (length (raw ∷ words)))
        (decode_named F R decoder raw (raw ∷ words) context) (err (value_error unknown_decoder))
        (decode_named-Serves decoder raw words context)
        (and_both (not (length (raw ∷ words) == 0))
          (first_need (needs decoder (length (raw ∷ words)))) h).1
