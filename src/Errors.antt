-- ===== src/Errors.antt =====
-- The exceptions of src/morningstar_modbus/protocol/errors.py, with Python's own that the modelled
-- code raises or lets through, and the result of a call that may raise.
use morningstar_modbus_api.Prelude.{ℕ, ◌≡◌, refl, Bool, true, false}
use morningstar_modbus_api.Prelude.Text.{Text}

-- What a ModbusProtocolError or a ValueError says; a constructor for each message of the source.
pub data Reason : Type 0 where
  unsupported_function address_range count_range unit_id_range stop_bits_range : Reason
  unexpected_function byte_count_mismatch : Reason
  identification_truncated identification_header object_header_truncated : Reason
  object_value_truncated trailing_bytes : Reason
  response_header response_length function_mismatch empty_response exception_truncated : Reason
  unexpected_unit rtu_crc rtu_identification_header rtu_function : Reason
  interval_range no_intervals few_samples fallback_range : Reason
  decoder_words empty_field unknown_decoder version_components : Reason
  -- a setting that is refused, by its name
  setting : Text → Reason

pub data Error : Type 0 where
  value_error : Reason → Error
  protocol_error : Reason → Error
  -- the function code and the exception code of ModbusDeviceError
  device_error : ℕ → ℕ → Error
  timeout_error os_error runtime_error overflow_error zero_division_error index_error : Error
  key_error : Error

-- What a call comes to: the exception that it raised, or the value that it returned.
pub data Result {ℓ} (X : Type ℓ) : Type ℓ where
  err : Error → Result X
  ok : X → Result X

-- The next statement of a body, which an exception skips.
infixl 5 ◌>>=◌
abbrev pub ◌>>=◌ {ℓ κ} : {X : Type ℓ} {Y : Type κ} → Result X → (X → Result Y) → Result Y
(err raised) >>= next = err raised
(ok value) >>= next = next value

infixl 5 ◌>>◌
abbrev pub ◌>>◌ {ℓ} : {Y : Type ℓ} → Result (Unit {0}) → Result Y → Result Y
(err raised) >> next = err raised
(ok done) >> next = next

-- `if test: raise e`
abbrev pub raise_if : Bool → Error → Result (Unit {0})
raise_if true e = err e
raise_if false e = ok tt

pub ok-injective {ℓ} : {A : Type ℓ} (a b : A) → ok a ≡ ok b → a ≡ b
ok-injective a b h = cc

-- Statements that returned a value: the first of them returned one, and the rest did with it.
pub >>=-eq-ok {ℓ κ} :
    {X : Type ℓ} {Y : Type κ} (first : Result X) (next : X → Result Y) {y : Y}
    → (first >>= next) ≡ ok y
    → (x : X) × (first ≡ ok x) × (next x ≡ ok y)
>>=-eq-ok (err raised) next h = cc
>>=-eq-ok (ok value) next h = (value, refl, h)

-- A chain whose first step returns, and whose rest then does.
pub >>=-ok {ℓ κ} :
    {X : Type ℓ} {Y : Type κ} (first : Result X) (next : X → Result Y) (x : X)
    → first ≡ ok x
    → (y : Y) × (next x ≡ ok y)
    → (y : Y) × ((first >>= next) ≡ ok y)
>>=-ok first next x e (y, r) = (y, rw e r)

-- A guard that was passed.
pub raise_if_passed {ℓ} :
    {X : Type ℓ} (test : Bool) (e : Error) (rest : Result X) {x : X}
    → (raise_if test e >> rest) ≡ ok x
    → (test ≡ false) × (rest ≡ ok x)
raise_if_passed true e rest h = cc
raise_if_passed false e rest h = (refl, h)
