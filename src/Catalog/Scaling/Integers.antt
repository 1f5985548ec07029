-- ===== src/Catalog/Scaling/Integers.antt =====
-- What the integer decoders of src/morningstar_modbus/catalog/scaling.py mean.
use morningstar_modbus_api.Prelude.{
  ℕ, zero, suc, ◌+◌, ◌-◌, ◌*◌, ◌/◌, ◌%◌, ◌^◌, ◌≤◌, ◌<◌, ◌≡◌, ap, ◌∙◌, List, [], ◌∷◌, arith, subst,
  if◌then◌else◌, ◌==◌,
}
use native.Mathlib.Nat.{pow-suc, mul-le-mul_right}
use morningstar_modbus_api.Prelude.Bits.{bit_or_apart, bit_or_apart_low}
use morningstar_modbus_api.Prelude.Int.{ℤ, pos_part, neg_part, sub_ℕ, pos}
use morningstar_modbus_api.Errors.{ok, ok-injective}
use morningstar_modbus_api.Catalog.Scaling.{
  signed_16, unsigned_32, signed_32, bcd_loop, bcd_integer, little_words, little_word_integer,
}

-- The integer is in the range of a signed number of modulus m, and congruent to the word.
pub record IsTwosComplement (m word : ℕ) (z : ℤ) : Type 0 where
  pub not_above : pos_part z * 2 < m
  pub not_below : neg_part z * 2 ≤ m
  pub congruent : (pos_part z + m - neg_part z) % m ≡ word % m

-- signed_16 is the two's complement of the low 16 bits of any number.
pub signed_16_lem : (value : ℕ) → IsTwosComplement 0x10000 value (signed_16 value)
unfolding signed_16
signed_16_lem value = record {
  not_above = ground arith;
  not_below = ground arith;
  congruent = ground arith;
}

unsigned_32_lem : (high low : ℕ) → unsigned_32 high low ≡ high % 0x10000 * 0x10000 + low % 0x10000
unfolding unsigned_32
unsigned_32_lem high low = bit_or_apart 16 (high % 0x10000) (low % 0x10000) (omega arith)

abbrev fold_32 : ℕ → ℤ
fold_32 v = if v / 0x80000000 % 2 == 1 then sub_ℕ v 0x100000000 else pos v

folded : (v word : ℕ) → v ≡ word → v < 0x100000000 → IsTwosComplement 0x100000000 word (fold_32 v)
folded v word e h = record {
  not_above = ground arith;
  not_below = ground arith;
  congruent = ground arith;
}

-- signed_32 is the two's complement of the two words, the high one first.
pub signed_32_lem :
    (high low : ℕ) {z : ℤ}
    → signed_32 (high ∷ low ∷ []) ≡ ok z
    → IsTwosComplement 0x100000000 (high % 0x10000 * 0x10000 + low % 0x10000) z
unfolding signed_32
signed_32_lem high low h =
    let e = unsigned_32_lem high low in
    let v = unsigned_32 high low in
    let fits : v < 0x100000000 = omega (arith, e) in
    let made = ok-injective _ _ h in
    subst (IsTwosComplement 0x100000000 (high % 0x10000 * 0x10000 + low % 0x10000)) made
      (folded v _ e fits)

-- A number of four decimal digits, a nibble for each.
abbrev pub packed : ℕ → ℕ
packed n = n / 1000 * 4096 + n / 100 % 10 * 256 + n / 10 % 10 * 16 + n % 10

-- bcd_integer reads back every number of up to four digits that is packed a digit to a nibble.
pub bcd_integer-packed : (n : ℕ) → n < 10000 → bcd_integer (packed n) ≡ n
unfolding bcd_integer bcd_loop
bcd_integer-packed n h = ground arith

-- The words as digits of base 65536, the lowest first.
abbrev pub positional : List ℕ → ℕ
positional [] = 0
positional (w ∷ ws) = w % 0x10000 + 0x10000 * positional ws

pow_add : (m n : ℕ) → 2 ^ (m + n) ≡ 2 ^ m * 2 ^ n
pow_add zero n = let e : zero + n ≡ n = omega arith in rw e (omega arith)
pow_add (suc m) n =
    let e : suc m + n ≡ suc (m + n) = omega arith in
    rw e (omega (arith, pow-suc 2 (m + n), pow_add m n, ap (λ (t : ℕ). t * 2 ^ n) (pow-suc 2 m)))

pow_words : (index : ℕ) → 2 ^ (16 * (index + 1)) ≡ 0x10000 * 2 ^ (16 * index)
pow_words index =
    let e : 16 * (index + 1) ≡ 16 + 16 * index = omega arith in rw e (pow_add 16 (16 * index))

little_words_lem :
    (index value : ℕ) (ws : List ℕ)
    → value < 2 ^ (16 * index)
    → little_words index value ws ≡ value + positional ws * 2 ^ (16 * index)
unfolding little_words
little_words_lem index value [] h = omega arith
little_words_lem index value (w ∷ ws) h =
    let k = 2 ^ (16 * index) in
    let word = w % 0x10000 in
    let or = bit_or_apart_low (16 * index) word value h in
    let at_most : word * k ≤ 0xFFFF * k = mul-le-mul_right k (omega arith) in
    let next : value + word * k < 2 ^ (16 * (index + 1)) =
      omega (arith, pow_words index, at_most) in
    let rest = little_words_lem (index + 1) (value + word * k) ws next in
    ap (λ t. little_words (index + 1) t ws) or
    ∙ rest
    ∙ omega (arith, ap (λ (t : ℕ). positional ws * t) (pow_words index))

-- little_word_integer reads the low 16 bits of the words as the digits of a number, the lowest
-- word first: the masks, shifts and ors add up.
pub little_word_integer-positional : (words : List ℕ) → little_word_integer words ≡ positional words
unfolding little_word_integer
little_word_integer-positional words = little_words_lem 0 0 words (omega arith) ∙ omega arith
