-- ===== src/Protocol/Crc/Corruption.antt =====
-- What the check word detects (src/morningstar_modbus/protocol/codec.py).
use morningstar_modbus_api.Prelude.{
  ℕ, zero, suc, ◌+◌, ◌-◌, ◌*◌, ◌/◌, ◌%◌, ◌^◌, ◌<◌, bit_xor, ◌≡◌, ap, ◌∙◌, sym, true, List, [], ◌∷◌,
  ◌++◌, arith, length, take, All-take,
}
use native.Mathlib.Nat.{pow-suc}
use morningstar_modbus_api.Prelude.Bits.{bit_xor_low, bit_xor_self}
use morningstar_modbus_api.Protocol.Crc.{
  IsByte, IsBytes, shift_bit, shift_bits, crc_byte, crc_loop, crc16, pack_le16, append_crc,
  valid_crc,
}
use morningstar_modbus_api.Protocol.Crc.Shift.{
  crc_byte-lt, byte_of_crc, crc_loop-lt, crc_loop_injective, crc_loop-append,
}
use morningstar_modbus_api.Protocol.Crc.Frame.{crc16-eq-loop, append_crc-take}

shift_bit_double : (m : ℕ) → shift_bit (2 * m) ≡ m
unfolding shift_bit
shift_bit_double m = ground arith

-- With no low bit set a round only halves.
shift_bits_even : (n x : ℕ) → shift_bits n (x * 2 ^ n) ≡ x
unfolding shift_bits
shift_bits_even zero x = omega arith
shift_bits_even (suc n) x =
    let d : x * 2 ^ suc n ≡ 2 * (x * 2 ^ n) = omega (arith, ap (λ (t : ℕ). x * t) (pow-suc 2 n)) in
    ap (λ t. shift_bits n (shift_bit t)) d
    ∙ ap (shift_bits n) (shift_bit_double (x * 2 ^ n))
    ∙ shift_bits_even n x

low_byte_out : (c : ℕ) → crc_byte c (c % 256) ≡ c / 256
unfolding crc_byte
low_byte_out c =
    let split : c / 256 * 256 + c % 256 ≡ c = omega arith in
    ap (λ t. shift_bits 8 (bit_xor t (c % 256))) (sym split)
    ∙ ap (shift_bits 8) (bit_xor_low 8 (c / 256) (c % 256) (omega arith))
    ∙ shift_bits_even 8 (c / 256)

high_byte_out : (hi : ℕ) → crc_byte hi hi ≡ 0
unfolding crc_byte
high_byte_out hi = ap (shift_bits 8) (bit_xor_self hi) ∙ shift_bits_even 8 0

-- Closing a frame brings the register back to zero.
residue : (c : ℕ) → crc_loop c (pack_le16 c) ≡ 0
unfolding crc_loop
residue c = ap (λ t. crc_byte t (c / 256)) (low_byte_out c) ∙ high_byte_out (c / 256)

closed_frame_residue : (p : List ℕ) → IsBytes p → crc_loop 0xFFFF (append_crc p) ≡ 0
unfolding append_crc
closed_frame_residue p h =
    crc_loop-append 0xFFFF p (pack_le16 (crc16 p))
    ∙ ap (λ t. crc_loop t (pack_le16 (crc16 p))) (sym (crc16-eq-loop p h))
    ∙ residue (crc16 p)

-- An accepted frame drives the register to zero.
pub valid_frame_residue : (f : List ℕ) → IsBytes f → valid_crc f ≡ true → crc_loop 0xFFFF f ≡ 0
valid_frame_residue f h v =
    ap (crc_loop 0xFFFF) (sym (append_crc-take f h v))
    ∙ closed_frame_residue (take (length f - 2) f) (All-take IsByte (length f - 2) f h)

All-front : (xs ys : List ℕ) → IsBytes (xs ++ ys) → IsBytes xs
All-front [] ys h = tt
All-front (x ∷ xs) ys h = (h.0, All-front xs ys h.1)

All-back : (xs ys : List ℕ) → IsBytes (xs ++ ys) → IsBytes ys
All-back [] ys h = h
All-back (x ∷ xs) ys h = All-back xs ys h.1

-- Two accepted frames of bytes that agree everywhere but at one position, in the payload or in the
-- check word, agree there too: no corruption of a single byte, of any number of its bits, passes
-- valid_crc.
pub single_byte_corruption :
    (xs ys : List ℕ) (a b : ℕ)
    → IsBytes (xs ++ a ∷ ys)
    → IsBytes (xs ++ b ∷ ys)
    → valid_crc (xs ++ a ∷ ys) ≡ true
    → valid_crc (xs ++ b ∷ ys) ≡ true
    → a ≡ b
single_byte_corruption xs ys a b h k v w =
    let c = crc_loop 0xFFFF xs in
    let small : c < 0x10000 = crc_loop-lt 0xFFFF xs (omega arith) (All-front xs (a ∷ ys) h) in
    let (ha, hys) = All-back xs (a ∷ ys) h in
    let (hb, _) = All-back xs (b ∷ ys) k in
    let same : crc_loop c (a ∷ ys) ≡ crc_loop c (b ∷ ys) =
      sym (crc_loop-append 0xFFFF xs (a ∷ ys))
      ∙ valid_frame_residue (xs ++ a ∷ ys) h v
      ∙ sym (valid_frame_residue (xs ++ b ∷ ys) k w)
      ∙ crc_loop-append 0xFFFF xs (b ∷ ys) in
    byte_of_crc c a b small ha hb (
      crc_loop_injective (crc_byte c a) (crc_byte c b) ys (crc_byte-lt c a small ha)
        (crc_byte-lt c b small hb) hys (unfold crc_loop in same))
