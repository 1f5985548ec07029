-- ===== src/Transports/Rtu/Noise.antt =====
-- Noise on the line behind the byte count of a reply (src/morningstar_modbus/transports/modbus.py).
use morningstar_modbus_api.Prelude.{
  ℕ, ◌+◌, ◌*◌, ◌≡◌, ◌≢◌, ◌<◌, refl, ap, subst, inl, inr, true, false, List, [], ◌∷◌, ◌++◌, arith,
  length, length-append, Bool-cases,
}
use morningstar_modbus_api.Errors.{Error, err, protocol_error, rtu_crc}
use morningstar_modbus_api.Protocol.Crc.{IsBytes, valid_crc, append_crc}
use morningstar_modbus_api.Protocol.Crc.Frame.{valid_crc-append_crc}
use morningstar_modbus_api.Protocol.Crc.Corruption.{single_byte_corruption}
use morningstar_modbus_api.Protocol.Codec.Responses.{register_response}
use morningstar_modbus_api.Transports.Rtu.{receive}
use morningstar_modbus_api.Transports.Rtu.Reads.{
  IsReadCode, reply_frame, length-body, read_frame_lem,
}

-- A frame with one byte changed for another is of bytes.
changed-IsBytes :
    (xs ys : List ℕ) (a b : ℕ) → IsBytes (xs ++ a ∷ ys) → b < 256 → IsBytes (xs ++ b ∷ ys)
changed-IsBytes [] ys a b h small = (small, h.1)
changed-IsBytes (x ∷ xs) ys a b h small = (h.0, changed-IsBytes xs ys a b h.1 small)

refused :
    (unit f n : ℕ) (xs rest pdu : List ℕ) (e : Error)
    → IsReadCode f
    → length xs ≡ n + 2
    → valid_crc (unit ∷ f ∷ n ∷ xs) ≡ false
    → receive unit pdu (record { bytes = unit ∷ f ∷ n ∷ (xs ++ rest); ending = e })
      ≡ err (protocol_error rtu_crc)
unfolding receive
refused unit f n xs rest pdu e h announced bad =
    rw (read_frame_lem unit f n xs rest e h announced) (rw bad refl)

-- A unit's reply to a read of registers in which the line has changed one byte of the words or of
-- the check word is refused with the error about the check word, whatever follows it on the line and
-- whatever the request was.
pub receive-noise :
    (unit f : ℕ) (ws xs ys rest pdu : List ℕ) (a b : ℕ) (e : Error)
    → IsReadCode f
    → reply_frame unit f ws ≡ unit ∷ f ∷ length ws * 2 ∷ (xs ++ a ∷ ys)
    → IsBytes (reply_frame unit f ws)
    → b < 256
    → a ≢ b
    → receive unit pdu
        (record { bytes = unit ∷ f ∷ length ws * 2 ∷ ((xs ++ b ∷ ys) ++ rest); ending = e })
      ≡ err (protocol_error rtu_crc)
unfolding append_crc
receive-noise unit f ws xs ys rest pdu a b e h sent bytes small changed =
    let n = length ws * 2 in
    let announced : length (xs ++ b ∷ ys) ≡ n + 2 = omega (
      arith,
      ap (λ l. length l) sent,
      length-body unit f ws,
      length-append xs (a ∷ ys),
      length-append xs (b ∷ ys),
    ) in
    refused unit f n (xs ++ b ∷ ys) rest pdu e h announced
      (elim (Bool-cases (valid_crc (unit ∷ f ∷ n ∷ (xs ++ b ∷ ys)))) [
        | inr bad ↦ bad
        | inl valid ↦
            let sent_bytes = subst (λ l. IsBytes l) sent bytes in
            let sent_valid =
              subst (λ l. valid_crc l ≡ true) sent
                (valid_crc-append_crc (unit ∷ register_response f ws) (omega arith)) in
            absurd (
              changed (
                single_byte_corruption (unit ∷ f ∷ n ∷ xs) ys a b sent_bytes
                  (changed-IsBytes (unit ∷ f ∷ n ∷ xs) ys a b sent_bytes small) sent_valid valid))
      ])
