-- ===== src/Protocol/Crc/Shift.antt =====
-- The shift register is a bijection on 16-bit words, so no two states are merged.
use morningstar_modbus_api.Prelude.{
  ℕ, zero, suc, ◌+◌, ◌*◌, ◌/◌, ◌<◌, bit_xor, ◌≡◌, refl, ap, List, [], ◌∷◌, ◌++◌, arith, ltb,
  if◌then◌else◌,
}
use morningstar_modbus_api.Prelude.Bits.{
  bit_xor_cancel, bit_xor_comm, bit_xor-lt_pow, bit_xor-pow_add,
}
use morningstar_modbus_api.Protocol.Crc.{IsBytes, shift_bit, shift_bits, crc_byte, crc_loop}

mask_sets_top : (a : ℕ) → a < 0x8000 → bit_xor a 0xA001 ≡ 0x8000 + bit_xor a 0x2001
mask_sets_top a h = bit_xor-pow_add 15 a 0x2001 h (omega arith)

pub shift_bit-lt : (x : ℕ) → x < 0x10000 → shift_bit x < 0x10000
unfolding shift_bit
shift_bit-lt x h = ground (arith, bit_xor-lt_pow 16 (x / 2) 0xA001 (omega arith) (omega arith))

pub shift_bits-lt : (n x : ℕ) → x < 0x10000 → shift_bits n x < 0x10000
unfolding shift_bits
shift_bits-lt zero x h = h
shift_bits-lt (suc n) x h = shift_bits-lt n (shift_bit x) (shift_bit-lt x h)

-- The top bit of the result says which branch was taken.
unshift : ℕ → ℕ
unshift y = if ltb y 0x8000 then y * 2 else bit_xor y 0xA001 * 2 + 1

unshift-shift_bit : (x : ℕ) → x < 0x10000 → unshift (shift_bit x) ≡ x
unfolding unshift shift_bit
unshift-shift_bit x h =
    ground (arith, mask_sets_top (x / 2) (omega arith), bit_xor_cancel (x / 2) 0xA001)

shift_bit_injective : (x y : ℕ) → x < 0x10000 → y < 0x10000 → shift_bit x ≡ shift_bit y → x ≡ y
shift_bit_injective x y p q e =
    omega (arith, unshift-shift_bit x p, unshift-shift_bit y q, ap unshift e)

pub shift_bits_injective :
    (n x y : ℕ) → x < 0x10000 → y < 0x10000 → shift_bits n x ≡ shift_bits n y → x ≡ y
unfolding shift_bits
shift_bits_injective zero x y p q e = e
shift_bits_injective (suc n) x y p q e =
    shift_bit_injective x y p q
      (shift_bits_injective n (shift_bit x) (shift_bit y) (shift_bit-lt x p) (shift_bit-lt y q) e)

xor_byte-lt : (crc b : ℕ) → crc < 0x10000 → b < 256 → bit_xor crc b < 0x10000
xor_byte-lt crc b p q = bit_xor-lt_pow 16 crc b p (omega arith)

pub crc_byte-lt : (crc b : ℕ) → crc < 0x10000 → b < 256 → crc_byte crc b < 0x10000
unfolding crc_byte
crc_byte-lt crc b p q = shift_bits-lt 8 (bit_xor crc b) (xor_byte-lt crc b p q)

pub crc_loop-lt : (crc : ℕ) (bs : List ℕ) → crc < 0x10000 → IsBytes bs → crc_loop crc bs < 0x10000
unfolding crc_loop
crc_loop-lt crc [] p q = p
crc_loop-lt crc (b ∷ bs) p q = crc_loop-lt (crc_byte crc b) bs (crc_byte-lt crc b p q.0) q.1

pub crc_byte_injective :
    (c d b : ℕ) → c < 0x10000 → d < 0x10000 → b < 256 → crc_byte c b ≡ crc_byte d b → c ≡ d
unfolding crc_byte
crc_byte_injective c d b p q h e =
    let same : bit_xor c b ≡ bit_xor d b =
      shift_bits_injective 8 _ _ (xor_byte-lt c b p h) (xor_byte-lt d b q h) e in
    omega (arith, bit_xor_cancel c b, bit_xor_cancel d b, ap (λ t. bit_xor t b) same)

-- For a given state, two bytes that lead to one state are one byte.
pub byte_of_crc :
    (c a b : ℕ) → c < 0x10000 → a < 256 → b < 256 → crc_byte c a ≡ crc_byte c b → a ≡ b
unfolding crc_byte
byte_of_crc c a b p h k e =
    let same : bit_xor c a ≡ bit_xor c b =
      shift_bits_injective 8 _ _ (xor_byte-lt c a p h) (xor_byte-lt c b p k) e in
    let swapped : bit_xor a c ≡ bit_xor b c =
      omega (arith, same, bit_xor_comm a c, bit_xor_comm b c) in
    omega (arith, bit_xor_cancel a c, bit_xor_cancel b c, ap (λ t. bit_xor t c) swapped)

pub crc_loop_injective :
    (c d : ℕ) (bs : List ℕ)
    → c < 0x10000
    → d < 0x10000
    → IsBytes bs
    → crc_loop c bs ≡ crc_loop d bs
    → c ≡ d
unfolding crc_loop
crc_loop_injective c d [] p q h e = e
crc_loop_injective c d (b ∷ bs) p q h e = crc_byte_injective c d b p q h.0 (
    crc_loop_injective (crc_byte c b) (crc_byte d b) bs (crc_byte-lt c b p h.0)
      (crc_byte-lt d b q h.0) h.1 e)

pub crc_loop-append : (c : ℕ) (xs ys : List ℕ) → crc_loop c (xs ++ ys) ≡ crc_loop (crc_loop c xs) ys
unfolding crc_loop
crc_loop-append c [] ys = refl
crc_loop-append c (x ∷ xs) ys = crc_loop-append (crc_byte c x) xs ys
