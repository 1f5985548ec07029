-- ===== src/Protocol/Crc/Tests.antt =====
-- Runs of the check word at known frames.
use morningstar_modbus_api.Prelude.{ℕ, ◌≡◌, refl, false, [], ◌∷◌, arith}
use morningstar_modbus_api.Protocol.Crc.{crc16, append_crc, valid_crc}
use morningstar_modbus_api.Protocol.Crc.Corruption.{single_byte_corruption}

-- The check value of CRC-16/MODBUS for the digits 1 to 9.
check_value : crc16 (0x31 ∷ 0x32 ∷ 0x33 ∷ 0x34 ∷ 0x35 ∷ 0x36 ∷ 0x37 ∷ 0x38 ∷ 0x39 ∷ []) ≡ 0x4B37
unfolding crc16
check_value = refl

read_frame : append_crc (1 ∷ 3 ∷ 0 ∷ 0 ∷ 0 ∷ 10 ∷ []) ≡ 1 ∷ 3 ∷ 0 ∷ 0 ∷ 0 ∷ 10 ∷ 0xC5 ∷ 0xCD ∷ []
unfolding append_crc crc16
read_frame = refl

flipped_frame : valid_crc (1 ∷ 3 ∷ 0 ∷ 0 ∷ 0 ∷ 11 ∷ 0xC5 ∷ 0xCD ∷ []) ≡ false
unfolding valid_crc crc16
flipped_frame = refl

single_byte_corruption_example : ◌≡◌ {A = ℕ} 10 10
single_byte_corruption_example =
    single_byte_corruption (1 ∷ 3 ∷ 0 ∷ 0 ∷ 0 ∷ []) (0xC5 ∷ 0xCD ∷ []) 10 10 (omega arith)
      (omega arith) (unfold valid_crc crc16 in refl) (unfold valid_crc crc16 in refl)
