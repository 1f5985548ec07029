-- ===== src/Catalog/Scaling.antt =====
-- The register decoders of src/morningstar_modbus/catalog/scaling.py. A register is a number; the
-- source masks it to 16 bits where it needs that.
pub mod Integers
pub mod Versions
mod Tests
use morningstar_modbus_api.Prelude.{
  ℕ, zero, suc, ◌+◌, ◌-◌, ◌*◌, ◌/◌, ◌%◌, ◌^◌, ◌<◌, bit_or, ◌≡◌, Bool, true, false, not, Option,
  none, some, List, [], ◌∷◌, ◌++◌, ◌&&◌, ◌||◌, leb, ltb, ◌==◌, length, drop, if◌then◌else◌,
}
use morningstar_modbus_api.Prelude.Text.{Text, text, text_eq, starts_with, strip, decode_ascii}
use morningstar_modbus_api.Prelude.Int.{ℤ, pos, sub_ℕ}
use morningstar_modbus_api.Prelude.Floats.{Floats}
use morningstar_modbus_api.Errors.{
  Result, ok, err, value_error, decoder_words, empty_field, unknown_decoder, ◌>>=◌, ◌>>◌,
}

-- value - 0x10000 if value & 0x8000 else value, of the low 16 bits
unfoldable pub signed_16 : ℕ → ℤ
signed_16 value = let v = value % 0x10000 in if v / 0x8000 % 2 == 1 then sub_ℕ v 0x10000 else pos v

-- ((high & 0xFFFF) << 16) | (low & 0xFFFF)
unfoldable pub unsigned_32 : ℕ → ℕ → ℕ
unsigned_32 high low = bit_or (high % 0x10000 * 2 ^ 16) (low % 0x10000)

unfoldable pub signed_32 : List ℕ → Result ℤ
unfolding unsigned_32
signed_32 (high ∷ low ∷ []) =
    let v = unsigned_32 high low in
    ok (if v / 0x80000000 % 2 == 1 then sub_ℕ v 0x100000000 else pos v)
signed_32 _ = err (value_error decoder_words)

-- (value >> shift) & 0xF
abbrev nibble : ℕ → ℕ → ℕ
nibble value shift = value / 2 ^ shift % 16

-- int("".join(digits)) of the digits up to now, or the value itself at a nibble that is no digit.
unfoldable pub bcd_loop : ℕ → List ℕ → ℕ → ℕ
bcd_loop value [] number = number
bcd_loop value (shift ∷ shifts) number =
    let digit = nibble value shift in
    let rest = bcd_loop value shifts (number * 10 + digit) in if ltb 9 digit then value else rest

unfoldable pub bcd_integer : ℕ → ℕ
unfolding bcd_loop
bcd_integer value = bcd_loop value (12 ∷ 8 ∷ 4 ∷ 0 ∷ []) 0

-- str(n), with at most `fuel` digits after the first; fuel n is enough.
unfoldable pub decimal_digits : ℕ → ℕ → Text
decimal_digits zero n = (48 + n % 10) ∷ []
decimal_digits (suc fuel) n =
    let rest = decimal_digits fuel (n / 10) in
    if ltb n 10 then (48 + n) ∷ [] else rest ++ (48 + n % 10) ∷ []

unfoldable pub decimal : ℕ → Text
unfolding decimal_digits
decimal n = decimal_digits n n

unfoldable pub byte_pair_version : ℕ → Text
unfolding decimal
byte_pair_version value =
    let v = value % 0x10000 in decimal (v / 256 % 256) ++ text "." ++ decimal (v % 256)

-- payload.rstrip(b"\x00\xff ")
abbrev is_filler : ℕ → Bool
is_filler b = b == 0 || b == 255 || b == 32

abbrev keep_after : ℕ → List ℕ → List ℕ
keep_after b [] = if is_filler b then [] else b ∷ []
keep_after b (c ∷ rest) = b ∷ c ∷ rest

abbrev rstrip_filler : List ℕ → List ℕ
rstrip_filler [] = []
rstrip_filler (b ∷ bs) = keep_after b (rstrip_filler bs)

abbrev printed : List ℕ → Text
printed payload = strip (decode_ascii (rstrip_filler payload))

unfoldable pub low_high_bytes : List ℕ → List ℕ
low_high_bytes [] = []
low_high_bytes (w ∷ ws) = w % 256 ∷ w / 256 % 256 ∷ low_high_bytes ws

unfoldable pub high_low_bytes : List ℕ → List ℕ
high_low_bytes [] = []
high_low_bytes (w ∷ ws) = w / 256 % 256 ∷ w % 256 ∷ high_low_bytes ws

unfoldable pub ascii_low_high : List ℕ → Text
unfolding low_high_bytes
ascii_low_high words = printed (low_high_bytes words)

unfoldable pub ascii_high_low : List ℕ → Text
unfolding high_low_bytes
ascii_high_low words = printed (high_low_bytes words)

-- The loop over `enumerate(words)`, at an index.
unfoldable pub little_words : ℕ → ℕ → List ℕ → ℕ
little_words index value [] = value
little_words index value (w ∷ ws) =
    little_words (index + 1) (bit_or value (w % 0x10000 * 2 ^ (16 * index))) ws

unfoldable pub little_word_integer : List ℕ → ℕ
unfolding little_words
little_word_integer words = little_words 0 0 words
