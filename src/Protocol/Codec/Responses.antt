-- ===== src/Protocol/Codec/Responses.antt =====
-- parse_register_response against the frame that the Modbus protocol describes
-- (src/morningstar_modbus/protocol/codec.py).
use morningstar_modbus_api.Prelude.{ℕ, ◌*◌, ◌≡◌, List, [], ◌∷◌, ◌↔◌, arith, length}
use morningstar_modbus_api.Errors.{ok}
use morningstar_modbus_api.Protocol.Crc.{IsBytes}
use morningstar_modbus_api.Protocol.Codec.{pack_words, unpack_words, parse_register_response}
use morningstar_modbus_api.Protocol.Codec.Words.{
  IsWords, length-pack_words, unpack-pack_words, unpack_words_lem,
}

-- The response that carries these words: function code, byte count, words high byte first.
abbrev pub register_response : ℕ → List ℕ → List ℕ
register_response f ws = f ∷ length ws * 2 ∷ pack_words ws

pub parse-response :
    (f : ℕ) (ws : List ℕ) → parse_register_response (register_response f ws) f (length ws) ≡ ok ws
unfolding parse_register_response
parse-response f ws = ground (arith, length-pack_words ws, unpack-pack_words ws)

pub record Parsed (pdu : List ℕ) (f count : ℕ) (ws : List ℕ) : Type 0 where
  pub body : List ℕ
  pub split : pdu ≡ f ∷ count * 2 ∷ body
  pub size : length body ≡ count * 2
  pub words : unpack_words body ≡ ws

pub parsed :
    (pdu : List ℕ) (f count : ℕ) (ws : List ℕ)
    → parse_register_response pdu f count ≡ ok ws
    → Parsed pdu f count ws
unfolding parse_register_response
parsed [] f count ws h = ground arith
parsed (g ∷ []) f count ws h = ground arith
parsed (g ∷ n ∷ body) f count ws h = record {
  body = body;
  split = ground arith;
  size = ground arith;
  words = ground arith;
}

-- Of bytes, exactly the response frames of `count` words are accepted, and they give the words.
pub parse_register_response_iff :
    (pdu : List ℕ) (f count : ℕ) (ws : List ℕ)
    → IsBytes pdu
    → (parse_register_response pdu f count ≡ ok ws)
      ↔ (IsWords ws × (length ws ≡ count) × (pdu ≡ register_response f ws))
parse_register_response_iff pdu f count ws h = (sound, complete)
  where
    sound :
        (parse_register_response pdu f count ≡ ok ws)
        → IsWords ws × (length ws ≡ count) × (pdu ≡ register_response f ws)
    sound e =
        let p = parsed pdu f count ws e in
        let bytes : IsBytes (f ∷ count * 2 ∷ p.body) = rw p.split at h in
        let (fit, many, same) = unpack_words_lem count p.body bytes.1.1 p.size in
        let counted : length ws ≡ count = rw p.words at many in
        let packed : pack_words ws ≡ p.body = rw p.words at same in
        (rw p.words at fit, counted, cc (p.split, counted, packed))

    complete :
        IsWords ws × (length ws ≡ count) × (pdu ≡ register_response f ws)
        → (parse_register_response pdu f count ≡ ok ws)
    complete c = rw (c.2, ← c.1) (parse-response f ws)
