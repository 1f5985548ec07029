-- ===== src/Protocol/Codec/Requests.antt =====
-- What read_registers_pdu sends (src/morningstar_modbus/protocol/codec.py).
use morningstar_modbus_api.Prelude.{
  ℕ, ◌≤◌, ◌<◌, ◌/◌, ◌%◌, ◌≡◌, refl, sym, ◌∙◌, ◌⊎◌, some, List, [], ◌∷◌, arith, length, get_elem?,
}
use morningstar_modbus_api.Prelude.Int.{ℤ, pos, negsuc, pos_part}
use morningstar_modbus_api.Errors.{ok, ok-injective}
use morningstar_modbus_api.Protocol.Crc.{IsBytes}
use morningstar_modbus_api.Protocol.Codec.{read_registers_pdu, request_shape}

-- The arguments of a legal register read.
pub record IsLegal (function_code : ℕ) (address count : ℤ) : Type 0 where
  pub read_only : (function_code ≡ 3) ⊎ (function_code ≡ 4)
  pub address_range : (address ≡ pos (pos_part address)) × (pos_part address < 0x10000)
  pub count_range : (count ≡ pos (pos_part count)) × (1 ≤ pos_part count) × (pos_part count ≤ 125)

-- The five bytes that carry it, the function code first.
pub record Carries (function_code : ℕ) (address count : ℤ) (pdu : List ℕ) : Type 0 where
  pub bytes : IsBytes pdu
  pub function : get_elem? pdu 0 ≡ some function_code
  pub size : length pdu ≡ 5
  pub shape : request_shape pdu ≡ some (pos_part address, pos_part count)

-- The request of a legal read.
abbrev pub frame : ℕ → ℕ → ℕ → List ℕ
frame f a c = f ∷ a / 256 ∷ a % 256 ∷ c / 256 ∷ c % 256 ∷ []

Carries-frame : (f a c : ℕ) → IsLegal f (pos a) (pos c) → Carries f (pos a) (pos c) (frame f a c)
unfolding request_shape
Carries-frame f a c h = record {
  bytes = omega arith;
  function = refl;
  size = refl;
  shape = ground arith;
}

pub accepts :
    (f a c : ℕ)
    → IsLegal f (pos a) (pos c)
    → read_registers_pdu f (pos a) (pos c) ≡ ok (frame f a c)
unfolding read_registers_pdu
accepts f a c h = ground arith

-- A legal read is accepted, with five bytes that carry its function code, its address and its
-- count.
pub accepts_legal :
    (f : ℕ) (a c : ℤ)
    → IsLegal f a c
    → (pdu : List ℕ) × (read_registers_pdu f a c ≡ ok pdu) × Carries f a c pdu
accepts_legal f (pos a) (pos c) h = (frame f a c, accepts f a c h, Carries-frame f a c h)
accepts_legal f (pos a) (negsuc c) h = absurd (ground arith)
accepts_legal f (negsuc a) c h = absurd (ground arith)

pub IsLegal-of_accepted :
    (f : ℕ) (a c : ℤ) (pdu : List ℕ) → read_registers_pdu f a c ≡ ok pdu → IsLegal f a c
unfolding read_registers_pdu
IsLegal-of_accepted f (pos a) (pos c) pdu h = record {
  read_only = ground arith;
  address_range = (refl, ground arith);
  count_range = (refl, ground arith, ground arith);
}
IsLegal-of_accepted f (pos a) (negsuc c) pdu h = ground arith
IsLegal-of_accepted f (negsuc a) c pdu h = ground arith

-- read_registers_pdu accepts exactly the reads with function code 3 or 4, a 16-bit address and 1
-- to 125 words; what it returns is five bytes, of which the first is the function code, and
-- _request_shape reads the address and the count back from them.
pub read_registers_pdu_iff :
    (f : ℕ) (a c : ℤ) (pdu : List ℕ)
    → ((read_registers_pdu f a c ≡ ok pdu) → IsLegal f a c × Carries f a c pdu)
      × (IsLegal f a c → (p : List ℕ) × (read_registers_pdu f a c ≡ ok p) × Carries f a c p)
read_registers_pdu_iff f a c pdu = (sound, accepts_legal f a c)
  where
    sound : (read_registers_pdu f a c ≡ ok pdu) → IsLegal f a c × Carries f a c pdu
    sound h =
        let l = IsLegal-of_accepted f a c pdu h in
        let (p, e, k) = accepts_legal f a c l in
        let same : p ≡ pdu = ok-injective p pdu (sym e ∙ h) in (l, rw (← same) k)
