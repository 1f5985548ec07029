-- ===== src/Protocol/Crc/Frame.antt =====
-- Which frames valid_crc accepts (src/morningstar_modbus/protocol/codec.py).
use morningstar_modbus_api.Prelude.{
  ℕ, ◌+◌, ◌-◌, ◌<◌, ◌≡◌, ap, ◌∙◌, true, List, [], ◌∷◌, ◌++◌, arith, length, take, drop,
  length-append, take-append, drop-append, take-append-drop, length-drop, All-drop,
}
use morningstar_modbus_api.Protocol.Crc.{
  IsByte, IsBytes, crc_loop, crc16, pack_le16, unpack_le16, append_crc, valid_crc,
}
use morningstar_modbus_api.Protocol.Crc.Shift.{crc_loop-lt}

pub crc16-lt : (p : List ℕ) → crc16 p < 0x10000
unfolding crc16
crc16-lt p = omega arith

pub crc16-eq-loop : (p : List ℕ) → IsBytes p → crc16 p ≡ crc_loop 0xFFFF p
unfolding crc16
crc16-eq-loop p h = omega (arith, crc_loop-lt 0xFFFF p (omega arith) h)

-- The two bytes of a check word read back as it.
unpack-pack : (n : ℕ) → unpack_le16 (pack_le16 n) ≡ n
unpack-pack n = omega arith

pack-unpack : (bs : List ℕ) → length bs ≡ 2 → IsBytes bs → pack_le16 (unpack_le16 bs) ≡ bs
pack-unpack [] e h = absurd (omega arith)
pack-unpack (a ∷ []) e h = absurd (omega arith)
pack-unpack (a ∷ b ∷ []) e h = ground arith
pack-unpack (a ∷ b ∷ c ∷ bs) e h = absurd (omega arith)

pub length-append_crc : (p : List ℕ) → length (append_crc p) ≡ length p + 2
unfolding append_crc
length-append_crc p = length-append p (pack_le16 (crc16 p))

pub take-append_crc : (p : List ℕ) → take (length (append_crc p) - 2) (append_crc p) ≡ p
take-append_crc p =
    let e : length (append_crc p) - 2 ≡ length p = omega (arith, length-append_crc p) in
    rw e (unfold append_crc in take-append p (pack_le16 (crc16 p)))

drop-append_crc :
    (p : List ℕ) → drop (length (append_crc p) - 2) (append_crc p) ≡ pack_le16 (crc16 p)
drop-append_crc p =
    let e : length (append_crc p) - 2 ≡ length p = omega (arith, length-append_crc p) in
    rw e (unfold append_crc in drop-append p (pack_le16 (crc16 p)))

-- A frame that append_crc has closed is accepted, unless its payload is empty.
pub valid_crc-append_crc : (p : List ℕ) → 0 < length p → valid_crc (append_crc p) ≡ true
valid_crc-append_crc p h =
    let n = length-append_crc p in
    unfold valid_crc in
    rw (take-append_crc p, drop-append_crc p) (ground (arith, n, unpack-pack (crc16 p)))

pub closed_by :
    (f : List ℕ)
    → valid_crc f ≡ true
    → (2 < length f) × (crc16 (take (length f - 2) f) ≡ unpack_le16 (drop (length f - 2) f))
unfolding valid_crc
closed_by f h = ground arith

-- An accepted frame of bytes is its own front, closed by append_crc.
pub append_crc-take :
    (f : List ℕ) → IsBytes f → valid_crc f ≡ true → append_crc (take (length f - 2) f) ≡ f
append_crc-take f h v =
    let (long, same) = closed_by f v in
    let tail = drop (length f - 2) f in
    let packed : pack_le16 (unpack_le16 tail) ≡ tail =
      pack-unpack tail (omega (arith, length-drop (length f - 2) f))
        (All-drop IsByte (length f - 2) f h) in
    unfold append_crc in
    ap (λ c. take (length f - 2) f ++ pack_le16 c) same
    ∙ ap (λ t. take (length f - 2) f ++ t) packed
    ∙ take-append-drop (length f - 2) f
