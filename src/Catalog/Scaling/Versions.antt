-- ===== src/Catalog/Scaling/Versions.antt =====
-- A version that byte_pair_version prints, as version_tuple reads it
-- (src/morningstar_modbus/catalog/scaling.py, src/morningstar_modbus/catalog/compatibility.py).
use morningstar_modbus_api.Prelude.{
  ℕ, zero, suc, ◌+◌, ◌/◌, ◌%◌, ◌≤◌, ◌<◌, ◌≡◌, refl, sym, ap, ◌∙◌, inl, inr, true, Option, none,
  some, [], ◌∷◌, ◌++◌, arith, ltb, Bool-cases,
}
use morningstar_modbus_api.Prelude.Text.{Text, text}
use morningstar_modbus_api.Catalog.Compatibility.{
  written, components, version_tuple, is_digit, extend,
}
use morningstar_modbus_api.Catalog.Scaling.{decimal_digits, decimal, byte_pair_version}

append_assoc : (xs ys zs : Text) → (xs ++ ys) ++ zs ≡ xs ++ (ys ++ zs)
append_assoc [] ys zs = refl
append_assoc (x ∷ xs) ys zs = ap (λ t. x ∷ t) (append_assoc xs ys zs)

digit_read :
    (part : Option ℕ) (d : ℕ) (s : Text)
    → d < 10
    → components part ((48 + d) ∷ s) ≡ components (extend part (48 + d)) s
unfolding components
digit_read part d s h = let e : is_digit (48 + d) ≡ true = ground arith in rw (e, components) refl

decimal_digits_read :
    (fuel n : ℕ) (s : Text)
    → n ≤ fuel
    → components none (decimal_digits fuel n ++ s) ≡ components (some n) s
unfolding decimal_digits
decimal_digits_read zero n s h =
    digit_read none (n % 10) s (omega arith) ∙ ap (λ k. components (some k) s) (omega arith)
decimal_digits_read (suc fuel) n s h = elim (Bool-cases (ltb n 10)) [
  | inl e ↦
      let small : n < 10 = ground arith in
      rw e (digit_read none n s small ∙ ap (λ k. components (some k) s) (omega arith))
  | inr e ↦
      let large : 10 ≤ n = ground arith in
      let last = (48 + n % 10) ∷ [] in
      rw e (
        ap (λ t. components none t) (append_assoc (decimal_digits fuel (n / 10)) last s)
        ∙ decimal_digits_read fuel (n / 10) (last ++ s) (omega arith)
        ∙ digit_read (some (n / 10)) (n % 10) s (omega arith)
        ∙ ap (λ k. components (some k) s) (omega arith))
]

point_read : (n : ℕ) (s : Text) → components (some n) (text "." ++ s) ≡ n ∷ components none s
unfolding components
point_read n s = refl

append_nil : (s : Text) → s ++ [] ≡ s
append_nil [] = refl
append_nil (c ∷ s) = ap (λ t. c ∷ t) (append_nil s)

decimal_end : (n : ℕ) → components none (decimal n) ≡ n ∷ []
unfolding decimal components
decimal_end n =
    ap (λ t. components none t) (sym (append_nil (decimal_digits n n)))
    ∙ decimal_digits_read n n [] (omega arith)

-- The revision printed of a word is read back as its two bytes, the high one first.
pub version_tuple-byte_pair_version :
    (value : ℕ)
    → version_tuple (written (byte_pair_version value)) ≡ value / 256 % 256 ∷ value % 256 ∷ []
unfolding version_tuple byte_pair_version decimal
version_tuple-byte_pair_version value =
    let v = value % 0x10000 in
    let high = v / 256 % 256 in
    let low = decimal (v % 256) in
    ap (λ t. components none t) (append_assoc (decimal high) (text ".") low)
    ∙ decimal_digits_read high high (text "." ++ low) (omega arith)
    ∙ point_read high low
    ∙ ap (λ t. high ∷ t) (decimal_end (v % 256))
    ∙ same_bytes
  where
    same_bytes :
        (value % 0x10000) / 256 % 256 ∷ value % 0x10000 % 256 ∷ []
        ≡ value / 256 % 256 ∷ value % 256 ∷ []
    same_bytes = ground arith
