-- ===== src/Protocol/Crc.antt =====
-- The RTU check word: crc16, append_crc and valid_crc of src/morningstar_modbus/protocol/codec.py.
-- A bytes object is the list of its values.
pub mod Shift
pub mod Frame
pub mod Corruption
mod Tests
use morningstar_modbus_api.Prelude.{
  ℕ, zero, suc, ◌+◌, ◌-◌, ◌*◌, ◌/◌, ◌%◌, ◌<◌, bit_xor, Bool, ◌&&◌, List, [], ◌∷◌, ◌++◌, leb, ◌==◌,
  if◌then◌else◌, length, take, drop, All,
}

abbrev pub IsByte : ℕ → Type 0
IsByte b = b < 256

abbrev pub IsBytes : List ℕ → Type 0
IsBytes = All IsByte

-- One round of the inner loop.
pub shift_bit : ℕ → ℕ
shift_bit crc = if crc % 2 == 1 then bit_xor (crc / 2) 0xA001 else crc / 2

-- for _ in range(n)
pub shift_bits : ℕ → ℕ → ℕ
shift_bits zero crc = crc
shift_bits (suc n) crc = shift_bits n (shift_bit crc)

pub crc_byte : ℕ → ℕ → ℕ
crc_byte crc byte = shift_bits 8 (bit_xor crc byte)

pub crc_loop : ℕ → List ℕ → ℕ
crc_loop crc [] = crc
crc_loop crc (byte ∷ rest) = crc_loop (crc_byte crc byte) rest

unfoldable pub crc16 : List ℕ → ℕ
unfolding crc_loop crc_byte shift_bits shift_bit
crc16 payload = crc_loop 0xFFFF payload % 0x10000

-- struct.pack("<H", n) and struct.unpack("<H", b), which has two bytes wherever it is called.
abbrev pub pack_le16 : ℕ → List ℕ
pack_le16 n = n % 256 ∷ n / 256 ∷ []

abbrev pub unpack_le16 : List ℕ → ℕ
unpack_le16 (lo ∷ hi ∷ []) = lo + 256 * hi
unpack_le16 _ = 0

unfoldable pub append_crc : List ℕ → List ℕ
append_crc payload = payload ++ pack_le16 (crc16 payload)

-- frame[:-2] and frame[-2:], of a frame of two bytes or more
unfoldable pub valid_crc : List ℕ → Bool
valid_crc frame =
    leb 3 (length frame)
    && (crc16 (take (length frame - 2) frame) == unpack_le16 (drop (length frame - 2) frame))
