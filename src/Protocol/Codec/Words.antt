-- ===== src/Protocol/Codec/Words.antt =====
-- Runs of 16-bit words as bytes, high byte first (src/morningstar_modbus/protocol/codec.py).
use morningstar_modbus_api.Prelude.{
  ℕ, zero, suc, ◌*◌, ◌<◌, ◌≡◌, refl, List, [], ◌∷◌, arith, length, All,
}
use morningstar_modbus_api.Protocol.Crc.{IsBytes}
use morningstar_modbus_api.Protocol.Codec.{pack_words, unpack_words}

abbrev pub IsWord : ℕ → Type 0
IsWord w = w < 0x10000

abbrev pub IsWords : List ℕ → Type 0
IsWords = All IsWord

pub length-pack_words : (ws : List ℕ) → length (pack_words ws) ≡ length ws * 2
length-pack_words [] = refl
length-pack_words (w ∷ ws) = omega (arith, length-pack_words ws)

pub pack_words-IsBytes : (ws : List ℕ) → IsWords ws → IsBytes (pack_words ws)
pack_words-IsBytes [] h = tt
pack_words-IsBytes (w ∷ ws) h = (omega arith, (omega arith, pack_words-IsBytes ws h.1))

pub unpack-pack_words : (ws : List ℕ) → unpack_words (pack_words ws) ≡ ws
unpack-pack_words [] = refl
unpack-pack_words (w ∷ ws) = ground (arith, unpack-pack_words ws)

-- Bytes that make up n words: there are n, each fits, and they pack to the bytes again.
pub unpack_words_lem :
    (n : ℕ) (bs : List ℕ)
    → IsBytes bs
    → length bs ≡ n * 2
    → IsWords (unpack_words bs)
      × (length (unpack_words bs) ≡ n)
      × (pack_words (unpack_words bs) ≡ bs)
unpack_words_lem n [] h e = (tt, omega arith, refl)
unpack_words_lem n (a ∷ []) h e = absurd (omega arith)
unpack_words_lem zero (a ∷ b ∷ bs) h e = absurd (omega arith)
unpack_words_lem (suc n) (a ∷ b ∷ bs) h e =
    let (words, count, same) = unpack_words_lem n bs h.1.1 (omega arith) in
    ((omega arith, words), omega arith, ground arith)
